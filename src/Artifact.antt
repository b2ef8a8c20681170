-- ===== src/Artifact.antt =====
-- boot_linux.go: resolveArtifact, fileHasDigest and extractFromTarGz over a store of files.
pub mod Integrity
use fc_preflight.Prelude.{
  ℕ, Bool, true, false, not, ◌&&◌, Option, none, some, List, [], ◌∷◌, ◌++◌, ◌==◌, if◌then◌else◌,
}
use fc_preflight.Text.{Bytes, codes, equal, is_empty}
use fc_preflight.Text.Number.{itoa}

-- type artifact; an empty member means a plain file
pub record Artifact : Type 0 where
  pub url : Bytes
  pub sha256 : Bytes
  pub tar_member : Bytes

-- The files by path.
abbrev pub Store : Type 0
Store = Bytes → Option Bytes

abbrev pub put : Bytes → Option Bytes → Store → Store
put path content st other = if equal path other then content else st other

-- A local path, or an error.
pub data Located : Type 0 where
  at_path : Bytes → Located
  failed : Bytes → Located

-- The next header of a tar reader: the end, an error, or a name with its content, `none` where
-- copying it fails after some bytes.
pub data TarItem : Type 0 where
  tar_end : TarItem
  tar_error : Bytes → TarItem
  tar_file : Bytes → Option Bytes → Bytes → TarItem

-- What the code takes from outside: the hexadecimal SHA-256, the answer of a GET (an error, or a
-- status with its text and the body, `none` where reading it fails), gzip and tar, and the messages
-- of failing file operations.
pub record Outside : Type 0 where
  pub digest : Bytes → Bytes
  pub fetch : Bytes → Option (ℕ × Bytes × Option Bytes)
  pub fetch_error : Bytes
  pub untar : Bytes → Option (List TarItem)
  pub can_make : Bytes → Bool
  pub can_create : Bytes → Bool
  pub can_rename : Bytes → Bool
  pub io_error : Bytes

module _ (o : Outside) where
  -- fileHasDigest, whose error the caller ignores
  unfoldable pub file_has_digest : Store → Bytes → Bytes → Bool
  file_has_digest st path want = elim (st path) [
    | none ↦ false
    | some content ↦ equal (o.digest content) want
  ]

  -- The loop of extractFromTarGz over the headers.
  unfoldable pub extract_from : List TarItem → Bytes → Bytes → Bytes → Store → Located × Store
  unfolding codes
  extract_from [] archive member dest st =
      (failed (member ++ codes " not found in " ++ archive), st)
  extract_from (tar_end ∷ items) archive member dest st =
      (failed (member ++ codes " not found in " ++ archive), st)
  extract_from (tar_error message ∷ items) archive member dest st = (failed message, st)
  extract_from (tar_file name content partial ∷ items) archive member dest st =
      let rest = extract_from items archive member dest st in
      if not (equal name member)
      then rest
      else if not (o.can_create dest)
      then (failed o.io_error, st)
      else elim content [
        | none ↦ (failed o.io_error, put dest (some partial) st)
        | some bytes ↦ (at_path dest, put dest (some bytes) st)
      ]

  -- extractFromTarGz
  unfoldable pub extract_from_tar_gz : Bytes → Bytes → Bytes → Store → Located × Store
  unfolding extract_from
  extract_from_tar_gz archive member dest st = elim (st archive) [
    | none ↦ (failed o.io_error, st)
    | some packed ↦ elim (o.untar packed) [
      | none ↦ (failed o.io_error, st)
      | some items ↦ extract_from items archive member dest st
    ]
  ]

  -- The end of resolveArtifact, with the verified download at `tmp`.
  unfoldable pub install : Artifact → Bytes → Bytes → Bytes → Store → Located × Store
  unfolding extract_from_tar_gz
  install a tmp dest body st =
      let (located, extracted) = extract_from_tar_gz tmp a.tar_member dest st in
      if not (is_empty a.tar_member)
      then (located, put tmp none extracted)
      else if not (o.can_rename dest)
      then (failed o.io_error, st)
      else (at_path dest, put tmp none (put dest (some body) st))

  -- The download, from the GET to the checksum.
  unfoldable pub download : Artifact → Bytes → Store → Located × Store
  unfolding codes install
  download a dest st =
      let tmp = dest ++ codes ".partial" in
      elim (o.fetch a.url) [
        | none ↦ (failed o.fetch_error, st)
        | some (status, text, body) ↦
            if not (status == 200)
            then (failed (codes "GET " ++ a.url ++ codes ": " ++ text), st)
            else if not (o.can_create tmp)
            then (failed o.io_error, st)
            else elim body [
              | none ↦ (failed o.io_error, put tmp none st)
              | some bytes ↦
                  if not (equal (o.digest bytes) a.sha256)
                  then (
                    failed (
                        codes "checksum mismatch for "
                        ++ a.url
                        ++ codes ":\n  want "
                        ++ a.sha256
                        ++ codes "\n  got  "
                        ++ o.digest bytes),
                    put tmp none st,
                  )
                  else install a tmp dest bytes (put tmp (some bytes) st)
            ]
      ]

  -- resolveArtifact; `dest` is the join of the cache directory and the name
  unfoldable pub resolve_artifact :
      Bool → Bytes → Bytes → Bytes → Artifact → Store → Located × Store
  unfolding codes download file_has_digest
  resolve_artifact offline cache_dir name dest a st =
      if file_has_digest st dest a.sha256
      then (at_path dest, st)
      else if offline
      then (
        failed (
            name
            ++ codes " not in cache at "
            ++ dest
            ++ codes " and -offline is set; supply it with a flag"),
        st,
      )
      else if not (o.can_make cache_dir)
      then (failed o.io_error, st)
      else download a dest st
