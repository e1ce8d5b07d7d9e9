-- ===== src/Core/Domain/Syntax.antt =====
-- The syntax of identifiers in crates/pip-core/src/domain.rs.
use agent_p1p.Prelude.{
  ℕ, String, ◌≡◌, ◌≢◌, ◌↔◌, refl, sym, ap, true, false, not, Bool-cases, List, [], ◌∷◌, ◌++◌, arith,
  ◌==◌, all, append-nil, append_assoc, ◌⊎◌, inl, inr, length, ok, if-err-eq-ok,
}
use agent_p1p.Prelude.Text.{bytes}
use agent_p1p.Core.Domain.{
  is_slug_byte, valid_slug, bad_slug_parts, split_from, split, parse_repository_slug,
  parse_textual_id, is_lower_hex, parse_git_sha,
}

-- A validated textual identifier is the text itself, not empty and of slug bytes.
pub parse_textual_id_iff :
    (kind value result : String)
    → (parse_textual_id kind value ≡ ok result)
      ↔ ((result ≡ value) × (bytes value ≢ []) × (all is_slug_byte (bytes value) ≡ true))
unfolding parse_textual_id
parse_textual_id_iff kind value result = (λ h. ground arith, λ h. ground arith)

-- A Git SHA is forty bytes, each a decimal digit or one of `a` to `f`, and is kept byte for byte.
pub parse_git_sha_iff :
    (value : String) (sha : List ℕ)
    → (parse_git_sha value ≡ ok sha)
      ↔ ((sha ≡ bytes value) × (length sha ≡ 40) × (all is_lower_hex sha ≡ true))
unfolding parse_git_sha
parse_git_sha_iff value sha = (λ h. ground arith, λ h. ground arith)

-- The bytes before the separator hold none.
abbrev Lacks : ℕ → List ℕ → Type 0
Lacks c part = all (λ b. not (b == c)) part ≡ true

split_one :
    (c : ℕ) (cur value : List ℕ) → Lacks c value → split_from c cur value ≡ (cur ++ value) ∷ []
split_one c cur [] h = rw append-nil
split_one c cur (b ∷ rest) h =
    ground (arith, split_one c (cur ++ b ∷ []) rest, append_assoc cur (b ∷ []) rest)

split_more :
    (c : ℕ) (cur part rest : List ℕ)
    → Lacks c part
    → split_from c cur (part ++ c ∷ rest) ≡ (cur ++ part) ∷ split_from c [] rest
split_more c cur [] rest h = ground (arith, append-nil cur)
split_more c cur (b ∷ part) rest h =
    ground (arith, split_more c (cur ++ b ∷ []) part rest, append_assoc cur (b ∷ []) part)

split_cases :
    (c : ℕ) (value : List ℕ)
    → Lacks c value
      ⊎ ((part : List ℕ) × (rest : List ℕ) × (value ≡ part ++ c ∷ rest) × Lacks c part)
split_cases c [] = inl refl
split_cases c (b ∷ value) = elim (Bool-cases (b == c)) [
  | inl same ↦ inr ([], value, ground arith, refl)
  | inr other ↦ elim (split_cases c value) [
    | inl clean ↦ inl (ground arith)
    | inr (part, rest, e, clean) ↦ inr (b ∷ part, rest, ap (λ l. b ∷ l) e, ground arith)
  ]
]

slug-Lacks : (value : List ℕ) → all is_slug_byte value ≡ true → Lacks b'/' value
slug-Lacks [] h = refl
slug-Lacks (b ∷ value) h = ground (arith, slug-Lacks value)

-- `owner/repository`, both of them slugs.
abbrev pub IsSlugPair : List ℕ → Type 0
IsSlugPair value =
    (owner : List ℕ) × (repository : List ℕ) × (value ≡ owner ++ b'/' ∷ repository)
    × (valid_slug owner ≡ true)
    × (valid_slug repository ≡ true)

split-ne-nil : (c : ℕ) (value : List ℕ) → split c value ≢ []
split-ne-nil c value h = elim (split_cases c value) [
  | inl clean ↦ cc (sym (split_one c [] value clean), h)
  | inr (part, rest, e, clean) ↦ cc (sym (split_more c [] part rest clean), h)
]

no_second : (value : List ℕ) → bad_slug_parts (value ∷ []) ≡ true
unfolding bad_slug_parts
no_second value = ground arith

too_many : (o r : List ℕ) (more : List (List ℕ)) → more ≢ [] → bad_slug_parts (o ∷ r ∷ more) ≡ true
unfolding bad_slug_parts
too_many o r more n = ground arith

slug_parts_sound : (value : List ℕ) → bad_slug_parts (split b'/' value) ≡ false → IsSlugPair value
unfolding bad_slug_parts
slug_parts_sound value h = elim (split_cases b'/' value) [
  | inl clean ↦ cc (h, no_second value, ap bad_slug_parts (split_one b'/' [] value clean))
  | inr (owner, rest, e, clean) ↦ elim (split_cases b'/' rest) [
    | inl last ↦
        let parts : split b'/' value ≡ owner ∷ rest ∷ [] =
          rw (e, split_more b'/' [] owner rest clean, split_one b'/' [] rest last) in
        let valid = rw parts at h in (owner, rest, e, ground arith, ground arith)
    | inr (second, more, e', clean') ↦
        let parts : split b'/' value ≡ owner ∷ second ∷ split b'/' more =
          rw (e, split_more b'/' [] owner rest clean, e', split_more b'/' [] second more clean') in
        cc (
          h,
          ap bad_slug_parts parts,
          too_many owner second (split b'/' more) (split-ne-nil b'/' more),
        )
  ]
]

slug_parts_complete :
    (value : List ℕ) → IsSlugPair value → bad_slug_parts (split b'/' value) ≡ false
unfolding bad_slug_parts
slug_parts_complete value (owner, repository, e, o, r) =
    let parts : split b'/' value ≡ owner ∷ repository ∷ [] = rw (
      e,
      split_more b'/' [] owner repository (slug-Lacks owner (ground arith)),
      split_one b'/' [] repository (slug-Lacks repository (ground arith)),
    ) in
    rw parts (ground arith)

-- A text is read as a repository slug, unchanged, exactly if it is two slugs joined by one slash.
pub parse_repository_slug_iff :
    (value result : String)
    → (parse_repository_slug value ≡ ok result) ↔ ((result ≡ value) × IsSlugPair (bytes value))
unfolding parse_repository_slug
parse_repository_slug_iff value result = (
  λ h.
      let (good, same) = if-err-eq-ok (bad_slug_parts (split b'/' (bytes value))) _ h in
      (same, slug_parts_sound (bytes value) good),
  λ h. rw (slug_parts_complete (bytes value) h.1, h.0),
)
