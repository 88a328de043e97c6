-- ===== src/Media/Cleaning.antt =====
-- `ParseFilePipeWithUnlink`: files that are refused, and the disk.
use capstone_home_care_be_mi.Common.{
  ◌≡◌, refl, sym, ap, ◌∙◌, String, Bool, not, List, [], ◌∷◌, any, keep, count, count-keep_apart,
  All, Unique, Has, ◌===◌, arith, eq_iff,
}
use capstone_home_care_be_mi.Errors.{Error, Result, ok, err}
use capstone_home_care_be_mi.Media.{UploadedFile, Disk, Unlink, unlink_all, transform}

abbrev pub same_path : UploadedFile → UploadedFile → Bool
same_path a b = a.path === b.path

abbrev pub IsStored : Disk → UploadedFile → Type 0
IsStored disk f = Has (λ x. x === f.path) disk

-- What is left without the files.
abbrev pub without : List UploadedFile → Disk → Disk
without files disk = keep (λ x. not (any (λ (f : UploadedFile). x === f.path) files)) disk

-- A file that is on the disk can be removed, and no other goes with it.
abbrev pub Removes : Unlink → Type 0
Removes unlink =
    (path : String) (disk : Disk)
    → Has (λ x. x === path) disk
    → unlink path disk ≡ (ok tt, keep (λ x. not (x === path)) disk)

without-none : (disk : Disk) → without [] disk ≡ disk
without-none [] = refl
without-none (x ∷ disk) = ap (λ (d : Disk). x ∷ d) (without-none disk)

keep-without :
    (f : UploadedFile) (files : List UploadedFile) (disk : Disk)
    → without files (keep (λ x. not (x === f.path)) disk) ≡ without (f ∷ files) disk
keep-without f files [] = refl
keep-without f files (x ∷ disk) = ground (arith, keep-without f files disk)

IsStored-keep :
    (f : UploadedFile) (files : List UploadedFile) (disk : Disk)
    → count (same_path f) files ≡ 0
    → All (IsStored disk) files
    → All (IsStored (keep (λ x. not (x === f.path)) disk)) files
IsStored-keep f [] disk apart h = tt
IsStored-keep f (g ∷ files) disk apart (here, h) = (
  λ e. here (
      sym (
        count-keep_apart (λ x. x === f.path) (λ x. x === g.path) disk
          (λ x q. ground (arith, eq_iff x f.path, eq_iff x g.path, eq_iff f.path g.path)))
      ∙ e),
  IsStored-keep f files disk (ground arith) h,
)

module _ (unlink : Unlink) (removes : Removes unlink) where
  unlink_all-without :
      (files : List UploadedFile) (disk : Disk)
      → Unique same_path files
      → All (IsStored disk) files
      → unlink_all unlink files disk ≡ (ok tt, without files disk)
  unfolding unlink_all
  unlink_all-without [] disk u h = ap (λ (d : Disk). (ok tt, d)) (sym (without-none disk))
  unlink_all-without (f ∷ files) disk (apart, u) (here, h) =
      let first = removes f.path disk here in
      let rest =
        unlink_all-without files (keep (λ x. not (x === f.path)) disk) u
          (IsStored-keep f files disk apart h) in
      rw (first, rest) (ap (λ d. (ok tt, d)) (keep-without f files disk))

  -- Given a file system that removes a file that is there and no other: where the pipe refuses
  -- files of different paths that are all stored, the error is the pipe's own, and what is left on
  -- the disk is what was there without those files.
  pub transform-without :
      {A : Type 0} (e : Error) (files : List UploadedFile) (disk : Disk)
      → Unique same_path files
      → All (IsStored disk) files
      → Path (Result A × Disk) (transform unlink (err e) files disk) (err e, without files disk)
  unfolding transform
  transform-without e files disk u h =
      let gone = unlink_all-without files disk u h in ground (arith, gone)
