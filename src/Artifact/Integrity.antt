-- ===== src/Artifact/Integrity.antt =====
-- boot_linux.go: what is at the path that resolveArtifact returns.
use mathlib.Core.Path.{subst}
use fc_preflight.Prelude.{
  Bool, true, false, none, some, [], ◌∷◌, ◌++◌, ◌≡◌, refl, inl, inr, arith, ◌==◌, Bool-cases,
  Option-cases,
}
use fc_preflight.Text.{equal_refl, Bytes, codes, equal}
use fc_preflight.Artifact.{
  Artifact, Store, put, Located, at_path, failed, Outside, file_has_digest, install, download,
  resolve_artifact,
}

partial_apart : (a : Bytes) → equal (a ++ codes ".partial") a ≡ false
unfolding equal codes
partial_apart [] = refl
partial_apart (c ∷ a) = ground (arith, partial_apart a)

-- A path that is returned is the expected one, and the file there has the pinned digest.
abbrev pub IsSound : Outside → Artifact → Bytes → Located × Store → Type 0
IsSound o a dest (at_path p, st) = (p ≡ dest) × (file_has_digest o st dest a.sha256 ≡ true)
IsSound o a dest (failed message, st) = Unit

module _ (o : Outside) (a : Artifact) (dest : Bytes) (plain : a.tar_member ≡ []) where
  installed :
      (body : Bytes) (st : Store)
      → equal (o.digest body) a.sha256 ≡ true
      → file_has_digest o
          (put (dest ++ codes ".partial") none (put dest (some body) st))
          dest
          a.sha256
        ≡ true
  unfolding file_has_digest
  installed body st h = rw (file_has_digest, partial_apart dest, equal_refl dest) h

  install-IsSound :
      (body : Bytes) (st : Store)
      → equal (o.digest body) a.sha256 ≡ true
      → IsSound o a dest (install o a (dest ++ codes ".partial") dest body st)
  unfolding install
  install-IsSound body st h = elim (Bool-cases (o.can_rename dest)) [
    | inl t ↦ rw (install, plain, t) (refl, installed body st h)
    | inr t ↦ rw (install, plain, t) tt
  ]

  download-IsSound : (st : Store) → IsSound o a dest (download o a dest st)
  unfolding download
  download-IsSound st = elim (Option-cases (o.fetch a.url)) [
    | inl e ↦ rw (download, e) tt
    | inr ((status, text, body), e) ↦ elim (Bool-cases (status == 200)) [
      | inr t ↦ rw (download, e, t) tt
      | inl t ↦ elim (Bool-cases (o.can_create (dest ++ codes ".partial"))) [
        | inr c ↦ rw (download, e, t, c) tt
        | inl c ↦ elim (Option-cases body) [
          | inl b ↦ rw (download, e, t, c, b) tt
          | inr (bytes, b) ↦ elim (Bool-cases (equal (o.digest bytes) a.sha256)) [
            | inr d ↦ rw (download, e, t, c, b, d) tt
            | inl d ↦
                rw (download, e, t, c, b, d)
                  (install-IsSound bytes (put (dest ++ codes ".partial") (some bytes) st) d)
          ]
        ]
      ]
    ]
  ]

  -- Whatever the network and the file system answer, if resolveArtifact returns a path for an artifact
  -- that is a plain file, it is the path in the cache, and the file there has the pinned digest.
  pub resolve_artifact-IsSound :
      (offline : Bool) (cache_dir name : Bytes) (st : Store)
      → IsSound o a dest (resolve_artifact o offline cache_dir name dest a st)
  unfolding resolve_artifact
  resolve_artifact-IsSound offline cache_dir name st =
      elim (Bool-cases (file_has_digest o st dest a.sha256)) [
        | inl t ↦ rw (resolve_artifact, t) (refl, t)
        | inr t ↦ elim (Bool-cases offline) [
          | inl f ↦ rw (resolve_artifact, t, f) tt
          | inr f ↦ elim (Bool-cases (o.can_make cache_dir)) [
            | inr c ↦ rw (resolve_artifact, t, f, c) tt
            | inl c ↦ rw (resolve_artifact, t, f, c) (download-IsSound st)
          ]
        ]
      ]

  -- An artifact that is a plain file and was once resolved, from the network or not, is found again
  -- with -offline, at the same path and with no change of the files.
  pub resolve_artifact-again :
      (offline : Bool) (cache_dir name p : Bytes) (st after : Store)
      → resolve_artifact o offline cache_dir name dest a st ≡ (at_path p, after)
      → resolve_artifact o true cache_dir name dest a after ≡ (at_path p, after)
  unfolding resolve_artifact
  resolve_artifact-again offline cache_dir name p st after e =
      let (q, d) =
        subst (IsSound o a dest) e (resolve_artifact-IsSound offline cache_dir name st) in
      rw (resolve_artifact, d, q) refl
