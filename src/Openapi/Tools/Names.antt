-- ===== src/Openapi/Tools/Names.antt =====
-- What openapi/tools.py promises of the names that carry a hash.
use grantora.Prelude.{
  ℕ, zero, suc, ◌+◌, ◌*◌, ◌≤◌, ◌<◌, String, ◌≡◌, refl, ap, sym, ◌∙◌, true, false, Option, none,
  some, List, leb, Bool-cases, inl, inr, arith, string_eq,
}
use grantora.Prelude.Text.{text_length}
use grantora.Openapi.Tools.{
  is_used, name_with_hash, hashed_from, hashed_tool_name, tool_name_hash_length,
}

-- A name that the loop returns is not used, and every shorter hash gave a used name.
hashed_from-unused :
    (base_name digest : String) (used_names : List String) (rounds hash_length : ℕ) {name : String}
    → hashed_from base_name digest used_names rounds hash_length ≡ some name
    → is_used used_names name ≡ false
unfolding hashed_from
hashed_from-unused base_name digest used_names zero hash_length h = absurd (ground arith)
hashed_from-unused base_name digest used_names (suc rounds) hash_length {name} h =
    elim (Bool-cases (leb hash_length (text_length digest))) [
      | inr beyond ↦ absurd (ground arith)
      | inl within ↦
          elim (Bool-cases (is_used used_names (name_with_hash base_name digest hash_length))) [
            | inl used ↦
                hashed_from-unused base_name digest used_names rounds
                  (hash_length + tool_name_hash_length) (ground arith)
            | inr free ↦
                let same : name_with_hash base_name digest hash_length ≡ name = ground arith in
                ap (is_used used_names) (sym same) ∙ free
          ]
    ]

-- A round that leaves nothing found its name used, and so left the later rounds.
round-none :
    (base_name digest : String) (used_names : List String) (rounds hash_length : ℕ)
    → hashed_from base_name digest used_names (suc rounds) hash_length ≡ none
    → hash_length ≤ text_length digest
    → (is_used used_names (name_with_hash base_name digest hash_length) ≡ true)
      × (hashed_from base_name digest used_names rounds (hash_length + tool_name_hash_length)
          ≡ none)
unfolding hashed_from
round-none base_name digest used_names rounds hash_length h within =
    elim (Bool-cases (is_used used_names (name_with_hash base_name digest hash_length))) [
      | inl used ↦ (used, ground arith)
      | inr free ↦ absurd (ground arith)
    ]

hashed_from-none :
    (base_name digest : String) (used_names : List String) (rounds hash_length k : ℕ)
    → text_length digest < hash_length + rounds * tool_name_hash_length
    → hashed_from base_name digest used_names rounds hash_length ≡ none
    → hash_length + k * tool_name_hash_length ≤ text_length digest
    → is_used used_names (name_with_hash base_name digest (hash_length + k * tool_name_hash_length))
      ≡ true
hashed_from-none base_name digest used_names zero hash_length k enough h within =
    absurd (omega arith)
hashed_from-none base_name digest used_names (suc rounds) hash_length zero enough h within =
    let (used, _) = round-none base_name digest used_names rounds hash_length h (omega arith) in
    let same : hash_length + zero * tool_name_hash_length ≡ hash_length = omega arith in
    ap (λ n. is_used used_names (name_with_hash base_name digest n)) same ∙ used
hashed_from-none base_name digest used_names (suc rounds) hash_length (suc k) enough h within =
    let (_, later) = round-none base_name digest used_names rounds hash_length h (omega arith) in
    let same : hash_length + suc k * tool_name_hash_length
        ≡ hash_length + tool_name_hash_length + k * tool_name_hash_length =
      omega arith in
    ap (λ n. is_used used_names (name_with_hash base_name digest n)) same
    ∙ hashed_from-none base_name digest used_names rounds (hash_length + tool_name_hash_length) k
        (omega arith) later (omega arith)

module _ (sha256 : String → String) (base_name capability_id : String)
    (used_names : List String) where
  -- How the name with a hash is chosen: one that is returned is not used; where none is returned, the
  -- names with the first 8, 16, … digits of the digest are all used.
  abbrev pub IsHashedName : Option String → Type 0
  IsHashedName (some name) = is_used used_names name ≡ false
  IsHashedName none =
      (k : ℕ)
      → tool_name_hash_length + k * tool_name_hash_length ≤ text_length (sha256 capability_id)
      → is_used used_names (
          name_with_hash base_name (sha256 capability_id)
            (tool_name_hash_length + k * tool_name_hash_length))
        ≡ true

  is_hashed :
      (o : Option String)
      → hashed_tool_name sha256 base_name capability_id used_names ≡ o
      → IsHashedName o
  unfolding hashed_tool_name
  is_hashed (some name) h =
      hashed_from-unused base_name (sha256 capability_id) used_names _ tool_name_hash_length h
  is_hashed none h = λ k within.
      hashed_from-none base_name (sha256 capability_id) used_names
        (text_length (sha256 capability_id)) tool_name_hash_length k (omega arith) h within

  -- A tool name with a hash is not one of the names in use, and the search for it gives up only where
  -- the names with the first 8, 16, and so on, digits of the digest are all in use.
  pub hashed-IsHashedName :
      IsHashedName (hashed_tool_name sha256 base_name capability_id used_names)
  hashed-IsHashedName = is_hashed _ refl
