-- ===== src/AccessControl/Retained/Accepted.antt =====
-- What `ParseRetainedEventPage` accepts.
use text.Mathlib.TextEquality.{eq_iff}
use face_recognition_proxy.Prelude.{
  ℕ, ◌≡◌, ◌≢◌, ◌↔◌, ◌≤◌, refl, ◌∙◌, ap, true, not, Option, none, some, List, String, Bytes, utf8,
  arith, string_eq, ◌==◌, Bool-cases, inl, inr, length,
}
use face_recognition_proxy.Result.{ok, refuse, require, >>=-eq-ok}
use face_recognition_proxy.AccessControl.{Readers, PageDocument, within}
use face_recognition_proxy.AccessControl.Retained.{
  RetainedEventPage, ResponseStatus, more, final, no_match, is_search_id, checked_status,
  checked_page, parse_retained_event_page, exact, omitted,
}
use face_recognition_proxy.PushSdk.Wire.{ℤ, pos, negsuc, Decoded, value, malformed, trailing}

abbrev pub text_of : ResponseStatus → String
text_of more = "MORE"
text_of final = "OK"
text_of no_match = "NO MATCH"

abbrev pub IsCounted : ResponseStatus → ℕ → ℕ → List Bytes → Type 0
IsCounted no_match num total infos = (num ≡ 0) × (total ≡ 0) × (length infos ≡ 0)
IsCounted _ num total infos = num ≡ length infos

-- The documented pages: the identifier has 1 to 64 bytes, the counts are in range, and the count of
-- records is the number of them.
abbrev pub IsPage : RetainedEventPage → Type 0
IsPage page =
    (page.search_id ≢ "")
    × (length (utf8 page.search_id) ≤ 64)
    × (page.num_of_matches ≤ 30)
    × (page.total_matches ≤ 150_000)
    × IsCounted page.response_status page.num_of_matches page.total_matches page.info_list

abbrev pub Declares : PageDocument → RetainedEventPage → Type 0
Declares document page =
    (document.search_id ≡ some page.search_id)
    × (document.response_status ≡ some (text_of page.response_status))
    × (document.num_of_matches ≡ some (pos page.num_of_matches))
    × (document.total_matches ≡ some (pos page.total_matches))
    × (document.info_list ≡ page.info_list)

status_to :
    (text : String) (num total : ℕ) (infos : List Bytes) (s : ResponseStatus)
    → text ≡ text_of s
    → IsCounted s num total infos
    → checked_status text num total infos ≡ ok s
unfolding checked_status
status_to text num total infos more named counted = rw named (ground arith)
status_to text num total infos final named counted = rw named (ground arith)
status_to text num total infos no_match named counted = rw named (ground arith)

status_from :
    (text : String) (num total : ℕ) (infos : List Bytes) (s : ResponseStatus)
    → checked_status text num total infos ≡ ok s
    → (text ≡ text_of s) × IsCounted s num total infos
unfolding checked_status
status_from text num total infos more h =
    ground (arith, eq_iff text "MORE", eq_iff text "OK", eq_iff text "NO MATCH")
status_from text num total infos final h =
    ground (arith, eq_iff text "MORE", eq_iff text "OK", eq_iff text "NO MATCH")
status_from text num total infos no_match h =
    ground (arith, eq_iff text "MORE", eq_iff text "OK", eq_iff text "NO MATCH")

search_id_iff : (id : String) → (is_search_id id ≡ true) ↔ ((id ≢ "") × (length (utf8 id) ≤ 64))
search_id_iff id = (
  λ h. ((λ e. ground (arith, eq_iff id "")), ground arith),
  λ (some_text, short). elim (Bool-cases (id == "")) [
    | inl e ↦ absurd (some_text ((eq_iff id "").0 e))
    | inr e ↦ rw e (ground arith)
  ],
)

range_from : (high : ℕ) (n : ℤ) (m : ℕ) → within 0 high n ≡ some m → (n ≡ pos m) × (m ≤ high)
range_from high (pos n) m h = ground arith
range_from high (negsuc n) m h = cc

abbrev page_of : String → ResponseStatus → ℕ → ℕ → List Bytes → RetainedEventPage
page_of search_id s n t infos = record {
  search_id = search_id;
  response_status = s;
  num_of_matches = n;
  total_matches = t;
  info_list = infos;
}

checked_from :
    (search_id status : String) (num total : ℤ) (infos : List Bytes) (page : RetainedEventPage)
    → checked_page search_id status num total infos ≡ ok page
    → (search_id ≡ page.search_id)
      × (status ≡ text_of page.response_status)
      × (num ≡ pos page.num_of_matches)
      × (total ≡ pos page.total_matches)
      × (infos ≡ page.info_list)
      × IsPage page
unfolding checked_page
checked_from search_id status num total infos page h =
    let (_, first, h1) = >>=-eq-ok (refuse (not (is_search_id search_id)) _) _ h in
    let (n, second, h2) = >>=-eq-ok (require (within 0 30 num) _) _ h1 in
    let (t, third, h3) = >>=-eq-ok (require (within 0 150_000 total) _) _ h2 in
    let (s, fourth, h4) = >>=-eq-ok (checked_status status n t infos) _ h3 in
    let (num≡, few) = range_from 30 num n (ground arith) in
    let (total≡, below) = range_from 150_000 total t (ground arith) in
    let (named, counted) = status_from status n t infos s fourth in
    let (some_text, short) = (search_id_iff search_id).0 (ground arith) in
    let same : page_of search_id s n t infos ≡ page = ground arith in
    rw (← same) (refl, named, num≡, total≡, refl, (some_text, short, few, below, counted))

checked_to :
    (page : RetainedEventPage)
    → IsPage page
    → checked_page page.search_id
        (text_of page.response_status)
        (pos page.num_of_matches)
        (pos page.total_matches)
        page.info_list
      ≡ ok page
unfolding checked_page
checked_to page (some_text, short, few, below, counted) =
    let id_ok : is_search_id page.search_id ≡ true =
      (search_id_iff page.search_id).1 (some_text, short) in
    let n_ok : within 0 30 (pos page.num_of_matches) ≡ some page.num_of_matches = ground arith in
    let t_ok : within 0 150_000 (pos page.total_matches) ≡ some page.total_matches = ground arith in
    rw
      (
        id_ok,
        n_ok,
        t_ok,
        status_to _ page.num_of_matches page.total_matches page.info_list page.response_status refl
            counted,
      )
      refl

require-some {ℓ} :
    {A : Type ℓ} (o : Option A) (a : A) (e : String) → require o e ≡ ok a → o ≡ some a
require-some none a e h = cc
require-some (some b) a e h = ground arith

exact-value :
    (answer : Decoded (Option PageDocument)) (document : PageDocument) (what : String)
    (o : Option PageDocument)
    → o ≡ some document
    → exact what answer ≡ ok o
    → answer ≡ value (some document)
exact-value (value o) document what o' e h = ground arith
exact-value (malformed _) document what o' e h = cc
exact-value trailing document what o' e h = cc

module _ (r : Readers) where
  read_from :
      (source : Bytes) (page : RetainedEventPage)
      → parse_retained_event_page r source ≡ ok page
      → (document : PageDocument) × (r.decode_page source ≡ value (some document))
        × Declares document page
        × IsPage page
  unfolding parse_retained_event_page
  read_from source page h =
      let (answer, first, h1) = >>=-eq-ok (exact _ (r.decode_page source)) _ h in
      let (document, second, h2) = >>=-eq-ok (require answer omitted) _ h1 in
      let (search_id, third, h3) = >>=-eq-ok (require document.search_id omitted) _ h2 in
      let (status, fourth, h4) = >>=-eq-ok (require document.response_status omitted) _ h3 in
      let (num, fifth, h5) = >>=-eq-ok (require document.num_of_matches omitted) _ h4 in
      let (total, sixth, h6) = >>=-eq-ok (require document.total_matches omitted) _ h5 in
      let (id≡, status≡, num≡, total≡, infos≡, is_page) =
        checked_from search_id status num total document.info_list page h6 in
      (
        document,
        exact-value (r.decode_page source) document _ answer (require-some answer document _ second)
            first,
        (
          require-some document.search_id search_id _ third ∙ ap some id≡,
          require-some document.response_status status _ fourth ∙ ap some status≡,
          require-some document.num_of_matches num _ fifth ∙ ap some num≡,
          require-some document.total_matches total _ sixth ∙ ap some total≡,
          infos≡,
        ),
        is_page,
      )

  -- A page is accepted exactly if it is one JSON document that declares all four pagination
  -- fields with the values of the page, the search identifier has 1 to 64 bytes, at most 30
  -- records of at most 150000 are declared, the status is one of the three documented ones, and
  -- the declared number is that of the records, or, for NO MATCH, nothing is declared.
  pub parse_retained_event_page-eq-ok_iff :
      (source : Bytes) (page : RetainedEventPage)
      → (parse_retained_event_page r source ≡ ok page) ↔ (
          (document : PageDocument) × (r.decode_page source ≡ value (some document))
          × Declares document page
          × IsPage page)
  unfolding parse_retained_event_page
  parse_retained_event_page-eq-ok_iff source page = (
    read_from source page,
    λ (document, read, (id≡, status≡, num≡, total≡, infos≡), is_page).
        rw (read, id≡, status≡, num≡, total≡, infos≡) (checked_to page is_page),
  )
