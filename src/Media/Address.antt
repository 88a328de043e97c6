-- ===== src/Media/Address.antt =====
-- `getPresignUrl`: the address without its query.
use Prim.Native.Char.{Char, code}
use Prim.Native.String.{◌++◌ as str_append}
use text.Mathlib.TextLemmas.{nil-append, cons-append, append-nil, append_assoc}
use capstone_home_care_be_mi.Common.{
  ℕ, ◌+◌, ◌≡◌, refl, sym, ap, ◌∙◌, String, Bool, true, false, ◌||◌, split, split_from, push, ◌==◌,
  if◌then◌else◌, arith, Bool-cases, inl, inr, ◌⊎◌, none, some, Option-cases,
}
use capstone_home_care_be_mi.Errors.{ok}
use capstone_home_care_be_mi.Platform.{Platform}
use capstone_home_care_be_mi.World.{World}
use capstone_home_care_be_mi.World.Laws.{step-ok}
use capstone_home_care_be_mi.Media.{
  Storage, PutObject, PresignedUploadFileBody, PresignedUrl, first_piece, content_type_of,
  generate_random_filename, create_presigned_url_with_client, get_presign_url,
}

-- A text up to the first `sep`, and from there on.
abbrev pub before : ℕ → String → String
before sep String.[] = String.[]
before sep (String.◌∷◌ c s) =
    let more = before sep s in if code c == sep then String.[] else String.◌∷◌ c more

abbrev pub from : ℕ → String → String
from sep String.[] = String.[]
from sep (String.◌∷◌ c s) = let more = from sep s in if code c == sep then String.◌∷◌ c s else more

abbrev pub occurs : ℕ → String → Bool
occurs sep String.[] = false
occurs sep (String.◌∷◌ c s) = code c == sep || occurs sep s

-- Empty, or with `sep` first.
abbrev pub starts : ℕ → String → Bool
starts sep String.[] = true
starts sep (String.◌∷◌ c s) = code c == sep

before-occurs : (sep : ℕ) (s : String) → occurs sep (before sep s) ≡ false
before-occurs sep String.[] = refl
before-occurs sep (String.◌∷◌ c s) = elim (Bool-cases (code c == sep)) [
  | inl e ↦ rw e refl
  | inr e ↦ rw e (rw (e, before-occurs sep s) refl)
]

from-starts : (sep : ℕ) (s : String) → starts sep (from sep s) ≡ true
from-starts sep String.[] = refl
from-starts sep (String.◌∷◌ c s) = ground (arith, from-starts sep s)

before-from : (sep : ℕ) (s : String) → str_append (before sep s) (from sep s) ≡ s
before-from sep String.[] = refl
before-from sep (String.◌∷◌ c s) = elim (Bool-cases (code c == sep)) [
  | inl e ↦ rw e (nil-append (String.◌∷◌ c s))
  | inr e ↦ rw e (
      cons-append c (before sep s) (from sep s)
      ∙ ap (λ (x : String). String.◌∷◌ c x) (before-from sep s))
]

push-append :
    (s : String) (c : Char) (t : String) → str_append (push s c) t ≡ str_append s (String.◌∷◌ c t)
push-append s c t =
    append_assoc s (String.◌∷◌ c String.[]) t
    ∙ ap (str_append s)
        (cons-append c String.[] t ∙ ap (λ (x : String). String.◌∷◌ c x) (nil-append t))

first_piece-split_from :
    (sep : ℕ) (cur s : String) → first_piece (split_from sep cur s) ≡ str_append cur (before sep s)
unfolding split_from
first_piece-split_from sep cur String.[] = sym (append-nil cur)
first_piece-split_from sep cur (String.◌∷◌ c s) = elim (Bool-cases (code c == sep)) [
  | inl e ↦ rw e (sym (append-nil cur))
  | inr e ↦ rw e (first_piece-split_from sep (push cur c) s ∙ push-append cur c (before sep s))
]

content_type_of-cases :
    ⦃p : Platform⦄ (storage : Storage) (key : String)
    → (storage.lookup key ≡ some (content_type_of storage key))
      ⊎ ((storage.lookup key ≡ none) × (content_type_of storage key ≡ "application/octet-stream"))
content_type_of-cases storage key = elim (Option-cases (storage.lookup key)) [
  | inl e ↦ inr (e, ground arith)
  | inr (type, e) ↦ inl (ground arith)
]

-- What a client is given.
pub record IsPresigned ⦃p : Platform⦄ (storage : Storage) (body : PresignedUploadFileBody)
    (w : World) (r : PresignedUrl) : Type 0 where
  -- the random name was drawn by this call
  pub uuid : String
  pub drawn : uuid ≡ p.uuid w.tick
  pub command : PutObject
  pub key : command.key ≡ str_append uuid (storage.extname body.filename)
  -- the type of the extension, or that of plain bytes where the table has none
  pub content_type :
      (storage.lookup command.key ≡ some command.content_type)
      ⊎ ((storage.lookup command.key ≡ none) × (command.content_type ≡ "application/octet-stream"))
  pub signed : (t : ℕ) × (storage.get_signed_url t command 10 ≡ ok r.presigned_url)
  pub query : String
  pub query_starts : starts 63 query ≡ true
  pub parts : str_append r.url query ≡ r.presigned_url
  pub no_query : occurs 63 r.url ≡ false

module _ ⦃p : Platform⦄ (storage : Storage) (w : World) where
  -- When getPresignUrl returns, the signed address is for a key made of the uuid drawn for it and
  -- the extension of the file's name, with the type that the table has for that key, or that of
  -- plain bytes; the other address is the signed one cut before its first question mark.
  pub get_presign_url-IsPresigned :
      (body : PresignedUploadFileBody) (r : PresignedUrl) {w' : World}
      → get_presign_url storage body w ≡ (ok r, w')
      → IsPresigned storage body w r
  unfolding get_presign_url generate_random_filename create_presigned_url_with_client split
  get_presign_url-IsPresigned body r h =
      let name = str_append (p.uuid w.tick) (storage.extname body.filename) in
      let command : PutObject = record {
        bucket = p.config "S3_BUCKET_NAME";
        key = name;
        content_type = content_type_of storage name;
      } in
      let t = w.tick + 1 + 1 in
      let (address, e, h₁) =
        step-ok (storage.get_signed_url t command 10, record w { tick = t + 1 }) h in
      let same : address ≡ r.presigned_url = ground arith in
      let cut : r.url ≡ first_piece (split_from 63 "" address) = ground arith in
      let url : r.url ≡ before 63 address =
        cut ∙ first_piece-split_from 63 "" address ∙ nil-append (before 63 address) in
      record {
        uuid = p.uuid w.tick;
        drawn = refl;
        command = command;
        key = refl;
        content_type = content_type_of-cases storage name;
        signed = (t, ground arith);
        query = from 63 address;
        query_starts = from-starts 63 address;
        parts = rw url (before-from 63 address) ∙ same;
        no_query = rw url (before-occurs 63 address);
      }
