-- ===== src/Tests/Uploads.antt =====
-- A signed address and a refused upload.
use capstone_home_care_be_mi.Common.{
  ◌≡◌, refl, true, not, ◌&&◌, none, some, [], ◌∷◌, keep, count, split, ◌==◌, ◌===◌, if◌then◌else◌,
  arith,
}
use capstone_home_care_be_mi.Errors.{Result, ok, err, failure}
use capstone_home_care_be_mi.Media.{
  Storage, PresignedUploadFileBody, PresignedUrl, UploadedFile, Disk, Unlink,
  generate_random_filename, create_presigned_url_with_client, get_presign_url, is_valid, transform,
}
use capstone_home_care_be_mi.Media.Address.{IsPresigned, get_presign_url-IsPresigned}
use capstone_home_care_be_mi.Media.Cleaning.{Removes, without, transform-without}
use capstone_home_care_be_mi.Tests.Sample.{sample}
use capstone_home_care_be_mi.Tests.Cases.{before}

abbrev storage : Storage
storage = record {
  extname = λ s. ".png";
  lookup = λ s. none;
  get_signed_url = λ t command seconds. ok "https://s3/key?sig=1?2";
}

abbrev upload : PresignedUploadFileBody
upload = record { filename = "cat.png"; filesize = 10 }

abbrev address : PresignedUrl
address = record { presigned_url = "https://s3/key?sig=1?2"; url = "https://s3/key" }

presigned :
    get_presign_url ⦃p = sample⦄ storage upload before
    ≡ (ok address, (get_presign_url ⦃p = sample⦄ storage upload before).1)
unfolding get_presign_url generate_random_filename create_presigned_url_with_client split
presigned = refl

get_presign_url-IsPresigned_example : IsPresigned ⦃p = sample⦄ storage upload before address
get_presign_url-IsPresigned_example =
    get_presign_url-IsPresigned ⦃p = sample⦄ storage before upload address presigned

abbrev picture : UploadedFile
picture = record { path = "/tmp/a"; mimetype = "image/png" }

abbrev page : UploadedFile
page = record { path = "/tmp/b"; mimetype = "text/html" }

picture_only :
    is_valid ("image/png" ∷ []) (some picture) && not (is_valid ("image/png" ∷ []) (some page))
    ≡ true
unfolding is_valid
picture_only = refl

abbrev unlink : Unlink
unlink path disk =
    if count (λ x. x === path) disk == 0
    then (err (failure "ENOENT"), disk)
    else (ok tt, keep (λ x. not (x === path)) disk)

unlink-Removes : Removes unlink
unlink-Removes path disk here = ground (arith, here)

abbrev disk : Disk
disk = "/tmp/b" ∷ "/tmp/c" ∷ "/tmp/a" ∷ []

transform-without_example :
    Path
      (Result (Unit {0}) × Disk)
      (transform unlink (err (failure "size")) (picture ∷ page ∷ []) disk)
      (err (failure "size"), without (picture ∷ page ∷ []) disk)
transform-without_example =
    transform-without unlink unlink-Removes (failure "size") (picture ∷ page ∷ []) disk
      (refl, (refl, tt)) (λ e. ground arith, (λ e. ground arith, tt))
