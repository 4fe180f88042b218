-- ===== src/Store/IsapiCommands/Moves.antt =====
-- The moves of one command, and of all commands of the table.
use face_recognition_proxy.Prelude.{
  ℕ, zero, suc, ◌≡◌, refl, ◌∙◌, Bool, true, false, some, List, [], ◌∷◌, String, arith, string_eq,
  ◌==◌, Bool-cases, inl, inr,
}
use face_recognition_proxy.Store.IsapiCommands.{
  CommandStatus, queued, sent, completed, expired, IsapiCommand, is_open, update_rows, claim_rows,
  find_command, send_now,
}

-- The statuses that a status can come to be.
abbrev pub forward : CommandStatus → CommandStatus → Bool
forward queued _ = true
forward sent queued = false
forward sent _ = true
forward completed completed = true
forward completed _ = false
forward expired expired = true
forward expired _ = false

-- The request of a command, its deadline and its terminal are never rewritten.
abbrev pub SameRequest : IsapiCommand → IsapiCommand → Type 0
SameRequest c c' =
    (c'.uuid ≡ c.uuid)
    × (c'.terminal_serial_number ≡ c.terminal_serial_number)
    × (c'.method ≡ c.method)
    × (c'.url ≡ c.url)
    × (c'.data_format ≡ c.data_format)
    × (c'.request_data ≡ c.request_data)
    × (c'.expires_at ≡ c.expires_at)

-- The status goes forward, and a command that is completed or expired stays as it is.
abbrev pub Moves : IsapiCommand → IsapiCommand → Type 0
Moves c c' =
    SameRequest c c' × (forward c.status c'.status ≡ true) × (is_open c.status ≡ false → c' ≡ c)

forward_refl : (s : CommandStatus) → forward s s ≡ true
forward_refl queued = refl
forward_refl sent = refl
forward_refl completed = refl
forward_refl expired = refl

forward_trans :
    (r s t : CommandStatus) → forward r s ≡ true → forward s t ≡ true → forward r t ≡ true
forward_trans r s t h h' = ground arith

pub Moves-refl : (c : IsapiCommand) → Moves c c
Moves-refl c = ((refl, refl, refl, refl, refl, refl, refl), forward_refl c.status, λ h. refl)

closed_stays : (s t : CommandStatus) → forward s t ≡ true → is_open s ≡ false → is_open t ≡ false
closed_stays s t h closed = ground arith

pub Moves-trans : (c d e : IsapiCommand) → Moves c d → Moves d e → Moves c e
Moves-trans c d e (same, ahead, final) (same', ahead', final') = (
  ground arith,
  forward_trans c.status d.status e.status ahead ahead',
  λ closed. final' (closed_stays c.status d.status ahead closed) ∙ final closed,
)

-- Every command is still there, moved.
abbrev pub Follows : List IsapiCommand → List IsapiCommand → Type 0
Follows cs cs' =
    (uuid : String) (c : IsapiCommand)
    → find_command uuid cs ≡ some c
    → (c' : IsapiCommand) × (find_command uuid cs' ≡ some c') × Moves c c'

pub Follows-refl : (cs : List IsapiCommand) → Follows cs cs
Follows-refl cs uuid c found = (c, found, Moves-refl c)

pub Follows-trans : (cs ds es : List IsapiCommand) → Follows cs ds → Follows ds es → Follows cs es
Follows-trans cs ds es first second uuid c found =
    let (d, found', moved) = first uuid c found in
    let (e, found'', moved') = second uuid d found' in (e, found'', Moves-trans c d e moved moved')

-- One row put before lists that follow one another.
Follows-cons :
    (c c' : IsapiCommand) (cs cs' : List IsapiCommand)
    → Moves c c'
    → Follows cs cs'
    → Follows (c ∷ cs) (c' ∷ cs')
unfolding find_command
Follows-cons c c' cs cs' moved rest uuid d found = elim (Bool-cases (c.uuid == uuid)) [
  | inl e ↦ let c≡d : c ≡ d = ground arith in (c', rw (moved.0.0, e) refl, rw c≡d at moved)
  | inr e ↦
      let (d', found', moved') = rest uuid d (ground arith) in
      (d', rw (moved.0.0, e) found', moved')
]

pub update_rows-Follows :
    (chosen : IsapiCommand → Bool) (f : IsapiCommand → IsapiCommand)
    → ((c : IsapiCommand) → chosen c ≡ true → Moves c (f c))
    → (cs : List IsapiCommand) → Follows cs (update_rows chosen f cs).1
unfolding update_rows
update_rows-Follows chosen f moves [] = Follows-refl []
update_rows-Follows chosen f moves (c ∷ cs) =
    let rest = update_rows-Follows chosen f moves cs in
    elim (Bool-cases (chosen c)) [
      | inl e ↦ simp e (Follows-cons c (f c) cs _ (moves c e) rest)
      | inr e ↦ simp e (Follows-cons c c cs _ (Moves-refl c) rest)
    ]

pub claim_rows-Follows :
    (claimable : IsapiCommand → Bool) (now limit : ℕ)
    → ((c : IsapiCommand) → claimable c ≡ true → Moves c (send_now now c))
    → (cs : List IsapiCommand) → Follows cs (claim_rows claimable now limit cs).1
unfolding claim_rows
claim_rows-Follows claimable now zero moves cs = Follows-refl cs
claim_rows-Follows claimable now (suc limit) moves [] = Follows-refl []
claim_rows-Follows claimable now (suc limit) moves (c ∷ cs) = elim (Bool-cases (claimable c)) [
  | inl e ↦ simp e (
      Follows-cons c (send_now now c) cs _ (moves c e)
        (claim_rows-Follows claimable now limit moves cs))
  | inr e ↦
      simp e (
        Follows-cons c c cs _ (Moves-refl c)
          (claim_rows-Follows claimable now (suc limit) moves cs))
]
