-- ===== src/Store/IsapiCommands/Claimed.antt =====
-- Which commands `ClaimISAPICommands` of internal/store/isapi_commands.go delivers.
use face_recognition_proxy.Prelude.{
  ℕ, zero, suc, ◌<◌, ◌≤◌, ◌↔◌, eq_iff, nat_eq, ◌≡◌, refl, sym, ◌∙◌, ap, true, ◌||◌, some, List, [],
  ◌∷◌, map, String, arith, string_eq, Bool-cases, inl, inr, length, ltb,
}
use face_recognition_proxy.Result.{ok, refuse, >>=-eq-ok}
use face_recognition_proxy.PushSdk.Commands.{IsapiCommandDelivery}
use face_recognition_proxy.Store.Tables.{Activity, Db}
use face_recognition_proxy.Store.Terminals.{insert_gateway_activity}
use face_recognition_proxy.Store.IsapiCommands.{
  CommandStatus, queued, sent, completed, expired, is_queued, send_now, IsapiCommand, Queues,
  SyncStore, set_commands, claim_rows, claim_isapi_commands, expire_overdue, note_sent,
  is_claimable, delivery_of,
}

-- A command of the terminal that waits and is still in time.
abbrev pub IsClaimable : String → ℕ → IsapiCommand → Type 0
IsClaimable serial now c =
    (c.terminal_serial_number ≡ serial) × (c.status ≡ queued) × (now < c.expires_at)

is_queued_iff : (status : CommandStatus) → (is_queued status ≡ true) ↔ (status ≡ queued)
is_queued_iff queued = (λ h. refl, λ h. refl)
is_queued_iff sent = (λ h. absurd (ground arith), λ h. cc)
is_queued_iff completed = (λ h. absurd (ground arith), λ h. cc)
is_queued_iff expired = (λ h. absurd (ground arith), λ h. cc)

is_claimable_iff :
    (serial : String) (now : ℕ) (c : IsapiCommand)
    → (is_claimable serial now c ≡ true) ↔ IsClaimable serial now c
is_claimable_iff serial now c =
    let waits = is_queued_iff c.status in
    let owned = eq_iff c.terminal_serial_number serial in
    (
      λ h. (owned.0 (ground arith), waits.0 (ground arith), ground arith),
      λ (e, e', in_time). rw (owned.1 e, waits.1 e') (ground arith),
    )

-- From a table, at most n claimable commands, the first of them in its order; each is marked as
-- sent in place, and the others stay.
pub data Claims (serial : String) (now : ℕ)
    : ℕ → List IsapiCommand → List IsapiCommand → List IsapiCommand → Type 0 where
  no_more : (cs : List IsapiCommand) → Claims serial now 0 cs [] cs
  at_end : (n : ℕ) → Claims serial now n [] [] []
  taken :
      (n : ℕ) (c : IsapiCommand) (cs chosen after : List IsapiCommand)
      → IsClaimable serial now c
      → Claims serial now n cs chosen after
      → Claims serial now
          (suc n)
          (c ∷ cs)
          (c ∷ chosen)
          (record c { status = sent; sent_at = some now } ∷ after)
  passed :
      (n : ℕ) (c : IsapiCommand) (cs chosen after : List IsapiCommand)
      → ¬ IsClaimable serial now c
      → Claims serial now n cs chosen after
      → Claims serial now n (c ∷ cs) chosen (c ∷ after)

claim_rows-Claims :
    (serial : String) (now n : ℕ) (cs : List IsapiCommand)
    → (chosen : List IsapiCommand) × ((claim_rows (is_claimable serial now) now n cs).0
        ≡ map (send_now now) chosen)
      × Claims serial now n cs chosen (claim_rows (is_claimable serial now) now n cs).1
unfolding claim_rows
claim_rows-Claims serial now zero cs = ([], refl, no_more cs)
claim_rows-Claims serial now (suc n) [] = ([], refl, at_end (suc n))
claim_rows-Claims serial now (suc n) (c ∷ cs) = elim (Bool-cases (is_claimable serial now c)) [
  | inl e ↦
      let (chosen, same, more) = claim_rows-Claims serial now n cs in
      simp e (
        c ∷ chosen,
        ap (λ rest. send_now now c ∷ rest) same,
        taken n c cs chosen _ ((is_claimable_iff serial now c).0 e) more,
      )
  | inr e ↦
      let (chosen, same, more) = claim_rows-Claims serial now (suc n) cs in
      simp e (
        chosen,
        same,
        passed (suc n) c cs chosen _
            (λ it. (let e' = (is_claimable_iff serial now c).1 it in absurd (ground arith))) more,
      )
]

Claims-le :
    (serial : String) (now n : ℕ) (cs chosen after : List IsapiCommand)
    → Claims serial now n cs chosen after
    → length chosen ≤ n
Claims-le serial now n cs chosen after (no_more _) = omega arith
Claims-le serial now n cs chosen after (at_end _) = omega arith
Claims-le serial now n cs chosen after (taken m c cs' chosen' after' it more) =
    omega (arith, Claims-le serial now m cs' chosen' after' more)
Claims-le serial now n cs chosen after (passed m c cs' chosen' after' it more) =
    Claims-le serial now m cs' chosen after' more

-- A delivery carries the identifier and the request of its command.
abbrev pub Carry : List IsapiCommandDelivery → List IsapiCommand → Type 0
Carry [] [] = Unit
Carry (d ∷ ds) (c ∷ cs) =
    ((d.uuid ≡ c.uuid)
      × (d.method ≡ c.method)
      × (d.url ≡ c.url)
      × (d.data_format ≡ c.data_format)
      × (d.payload ≡ c.request_data))
    × Carry ds cs
Carry _ _ = ⊥

deliveries-Carry :
    (now : ℕ) (cs : List IsapiCommand) → Carry (map delivery_of (map (send_now now) cs)) cs
deliveries-Carry now [] = tt
deliveries-Carry now (c ∷ cs) = ((refl, refl, refl, refl, refl), deliveries-Carry now cs)

module _ (s : SyncStore) (now : ℕ) where
  -- The records of the commands sent touch no command.
  note_sent-commands :
      (serial : String) (cs : List IsapiCommand) (db db' : Db (Queues s.S)) (log : List Activity)
      → note_sent s now serial cs db ≡ ok (db', log)
      → db'.queues ≡ db.queues
  unfolding note_sent insert_gateway_activity
  note_sent-commands serial [] db db' log h = ground arith
  note_sent-commands serial (c ∷ cs) db db' log h =
      let ((db2, rest), second, h2) = >>=-eq-ok (note_sent s now serial cs _) _ h in
      let same : db2 ≡ db' = cc in rw (sym same) (note_sent-commands serial cs _ db2 rest second)

  -- After the overdue commands have expired, the commands of the table that are delivered.
  abbrev pub IsClaim :
      String → ℕ → Db (Queues s.S) → Db (Queues s.S) → List IsapiCommandDelivery → Type 0
  IsClaim serial limit db db' deliveries =
      (1 ≤ limit)
      × (limit ≤ 20)
      × ((in_time : Db (Queues s.S)) × (expirations : List Activity) × (chosen : List IsapiCommand)
          × (expire_overdue s now (some serial) db ≡ ok (in_time, expirations))
          × Claims serial now limit in_time.queues.commands chosen db'.queues.commands
          × (length chosen ≤ limit)
          × Carry deliveries chosen)

  -- A claim that succeeds was asked for 1 to 20 commands. Of the table as the expiry of overdue
  -- commands leaves it, it delivers the first commands, at most that many and fewer only at the
  -- end of the table, that are the terminal's, queued and before their deadline, each with its
  -- own identifier and request; in the table these are marked as sent at this moment, and all
  -- other commands stay as they are.
  pub claim_isapi_commands-IsClaim :
      (serial : String) (limit : ℕ) (db db' : Db (Queues s.S))
      (deliveries : List IsapiCommandDelivery) (activities : List Activity)
      → claim_isapi_commands s now serial limit db ≡ ok (db', (deliveries, activities))
      → IsClaim serial limit db db' deliveries
  unfolding claim_isapi_commands
  claim_isapi_commands-IsClaim serial limit db db' deliveries activities h =
      let (_, within, h0) =
        >>=-eq-ok
          (refuse (ltb limit 1 || ltb 20 limit) "ISAPI command delivery limit must be 1..20") _ h in
      let ((db1, expirations), first, h1) =
        >>=-eq-ok (expire_overdue s now (some serial) db) _ h0 in
      let rows = claim_rows (is_claimable serial now) now limit db1.queues.commands in
      let ((db2, sendings), second, h2) =
        >>=-eq-ok (note_sent s now serial rows.0 (set_commands rows.1 db1)) _ h1 in
      let (chosen, same, claims) = claim_rows-Claims serial now limit db1.queues.commands in
      let last : db2 ≡ db' = cc in
      let carried : deliveries ≡ map delivery_of (map (send_now now) chosen) = cc in
      let table : db'.queues.commands ≡ rows.1 =
        ap (λ x. x.queues.commands) (sym last)
        ∙ ap (λ q. q.commands)
            (note_sent-commands serial rows.0 (set_commands rows.1 db1) db2 sendings second) in
      (
        ground (arith, within),
        ground (arith, within),
        (
          db1,
          expirations,
          chosen,
          first,
          rw table claims,
          Claims-le serial now limit db1.queues.commands chosen rows.1 claims,
          rw carried (deliveries-Carry now chosen),
        ),
      )
