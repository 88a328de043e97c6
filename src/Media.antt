-- ===== src/Media.antt =====
-- apps/media/src and libs/common/src/services/S3.service.ts: the signed address for an upload, and the
-- checks on the files that came with a request. The storage SDK, the table of file types, `path` and
-- the file system are parameters.
pub mod Address
pub mod Cleaning
use Prim.Native.String.{◌++◌ as str_append}
use capstone_home_care_be_mi.Common.{
  ℕ, ◌+◌, String, Bool, true, false, Option, none, some, List, [], ◌∷◌, any, split, ◌===◌,
}
use capstone_home_care_be_mi.Errors.{Result, ok, err, Error}
use capstone_home_care_be_mi.Platform.{Platform}
use capstone_home_care_be_mi.World.{Action, pure, sample, call, ◌>>=◌, ◌>>◌}

-- `new PutObjectCommand({ … })`
pub record PutObject : Type 0 where
  pub bucket : String
  pub key : String
  pub content_type : String

pub record Storage : Type 0 where
  -- `path.extname(filename)`
  pub extname : String → String
  -- `mime.lookup(filename)`: a type, or false
  pub lookup : String → Option String
  -- `getSignedUrl(client, command, { expiresIn })`
  pub get_signed_url : ℕ → PutObject → ℕ → Result String

-- `PresignedUploadFileBodyType`
pub record PresignedUploadFileBody : Type 0 where
  pub filename : String
  pub filesize : ℕ

pub record PresignedUrl : Type 0 where
  pub presigned_url : String
  pub url : String

-- A promise that nobody waits for: what it does is done, and what it answers is lost.
abbrev pub not_awaited : {A : Type 0} → Action A → Action (Unit {0})
not_awaited m w = (ok tt, (m w).1)

-- `xs[0]` of the pieces of a text, of which there is always one
abbrev pub first_piece : List String → String
first_piece [] = ""
first_piece (s ∷ _) = s

module _ ⦃p : Platform⦄ (storage : Storage) where
  unfoldable pub generate_random_filename : String → Action String
  generate_random_filename filename = do
    uuid ← sample p.uuid
    pure (str_append uuid (storage.extname filename))

  abbrev pub content_type_of : String → String
  content_type_of filename = elim (storage.lookup filename) [
    | none ↦ "application/octet-stream"
    | some type ↦ type
  ]

  unfoldable pub create_presigned_url_with_client : String → Action String
  create_presigned_url_with_client filename =
      let command : PutObject = record {
        bucket = p.config "S3_BUCKET_NAME";
        key = filename;
        content_type = content_type_of filename;
      } in
      do
        not_awaited (call (λ t. storage.get_signed_url t command 10))
        call (λ t. storage.get_signed_url t command 10)

  unfoldable pub get_presign_url : PresignedUploadFileBody → Action PresignedUrl
  get_presign_url body = do
    random_filename ← generate_random_filename body.filename
    presigned_url ← create_presigned_url_with_client random_filename
    pure (record { presigned_url = presigned_url; url = first_piece (split 63 presigned_url) })

-- `Express.Multer.File`
pub record UploadedFile : Type 0 where
  pub path : String
  pub mimetype : String

-- `ImageMimeTypeValidator.isValid`
unfoldable pub is_valid : List String → Option UploadedFile → Bool
is_valid allowed_mime_types none = false
is_valid allowed_mime_types (some file) = any (λ m. m === file.mimetype) allowed_mime_types

-- The paths of the files that are stored.
abbrev pub Disk : Type 0
Disk = List String

-- `unlink(path)`
abbrev pub Unlink : Type 0
Unlink = String → Disk → Result (Unit {0}) × Disk

abbrev pub settled : Result (Unit {0}) → Result (Unit {0}) → Result (Unit {0})
settled (ok tt) r = r
settled (err e) r = err e

-- `Promise.all(files.map((file) => unlink(file.path)))`: each is run, whatever the others answer.
unfoldable pub unlink_all : Unlink → List UploadedFile → Disk → Result (Unit {0}) × Disk
unlink_all unlink [] disk = (ok tt, disk)
unlink_all unlink (file ∷ files) disk =
    let (r, left) = unlink file.path disk in
    let (rest, end) = unlink_all unlink files left in (settled r rest, end)

-- `ParseFilePipeWithUnlink.transform`; `checked` is what `super.transform(files)` answers.
unfoldable pub transform :
    {A : Type 0} → Unlink → Result A → List UploadedFile → Disk → Result A × Disk
unfolding unlink_all
transform unlink (ok a) files disk = (ok a, disk)
transform unlink (err e) files disk =
    let (r, left) = unlink_all unlink files disk in
    elim r [ ok tt ↦ (err e, left) | err u ↦ (err u, left) ]
