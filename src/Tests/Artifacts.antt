-- ===== src/Tests/Artifacts.antt =====
-- A cache that fills from the network: a plain file is found again, a member of an archive is not.
use fc_preflight.Prelude.{true, false, none, some, [], ◌∷◌, ◌≡◌, refl}
use fc_preflight.Text.{Bytes, codes, equal}
use fc_preflight.Artifact.{
  Artifact, Store, Located, at_path, failed, tar_file, Outside, resolve_artifact, file_has_digest,
  download, install, extract_from_tar_gz, extract_from,
}
use fc_preflight.Artifact.Integrity.{IsSound, resolve_artifact-IsSound, resolve_artifact-again}

-- Every text is its own digest; one archive holds the binary.
abbrev network : Outside
network = record {
  digest = λ content. content;
  fetch = λ url. some (200, codes "200 OK", some url);
  fetch_error = codes "no route";
  untar = λ packed. some (
      tar_file (codes "readme") (some []) []
      ∷ tar_file (codes "firecracker") (some (codes "binary")) []
      ∷ []);
  can_make = λ path. true;
  can_create = λ path. true;
  can_rename = λ path. true;
  io_error = codes "disk full";
}

abbrev kernel : Artifact
kernel = record { url = codes "vmlinux"; sha256 = codes "vmlinux"; tar_member = [] }

abbrev release : Artifact
release = record { url = codes "tgz"; sha256 = codes "tgz"; tar_member = codes "firecracker" }

abbrev empty_cache : Store
empty_cache path = none

abbrev dest : Bytes
dest = codes "cache/f"

abbrev resolved_kernel : Located × Store
resolved_kernel = resolve_artifact network false (codes "cache") (codes "f") dest kernel empty_cache

resolve_artifact-IsSound_example : IsSound network kernel dest resolved_kernel
resolve_artifact-IsSound_example =
    resolve_artifact-IsSound network kernel dest refl false (codes "cache") (codes "f") empty_cache

kernel_found : resolved_kernel ≡ (at_path dest, resolved_kernel.1)
unfolding resolve_artifact file_has_digest download install extract_from_tar_gz codes equal
kernel_found = refl

resolve_artifact-again_example :
    resolve_artifact network true (codes "cache") (codes "f") dest kernel resolved_kernel.1
    ≡ (at_path dest, resolved_kernel.1)
resolve_artifact-again_example =
    resolve_artifact-again network kernel dest refl false (codes "cache") (codes "f") dest
      empty_cache resolved_kernel.1 kernel_found

abbrev resolved_release : Located × Store
resolved_release =
    resolve_artifact network false (codes "cache") (codes "f") dest release empty_cache

release_found : resolved_release.0 ≡ at_path dest
unfolding resolve_artifact file_has_digest download install extract_from_tar_gz codes equal
    extract_from
release_found = refl

-- The archive's digest is compared with that of the extracted member, so the cache is not used.
fetches_again :
    (resolve_artifact network true (codes "cache") (codes "f") dest release resolved_release.1).0
    ≡ failed (codes "f not in cache at cache/f and -offline is set; supply it with a flag")
unfolding resolve_artifact file_has_digest download install extract_from_tar_gz codes equal
    extract_from
fetches_again = refl
