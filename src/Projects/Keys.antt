-- ===== src/Projects/Keys.antt =====
-- projects.py, `_generated_project_key` and `_validate_project_name`.
use agent_app_server.Base.{
  ℕ, zero, suc, ◌≤◌, ◌≡◌, ◌≢◌, refl, sym, ap, ◌∙◌, subst, ℕ_discrete, Bool, true, false, not, ◌&&◌,
  List, [], ◌∷◌, ok, arith, all, any, All, length, take, Bool-cases, inl, inr, if◌then◌else◌,
}
use agent_app_server.Tenancy.{
  Text, Text-discrete, is_space, lstrip, rstrip, strip, is_control, encoded_length,
}
use agent_app_server.Projects.{
  is_key_char, is_project_key, is_reserved, long_key, short_key, first_free, candidates,
  generated_project_key, validate_project_name, is_separator, is_blank, is_dots,
}

-- A digest has at least one key character in all places.
length-take_le : (n : ℕ) (s : Text) → length (take n s) ≤ n
length-take_le zero s = omega arith
length-take_le (suc n) [] = omega arith
length-take_le (suc n) (c ∷ s) = omega (arith, length-take_le n s)

all-take : (test : ℕ → Bool) (n : ℕ) (s : Text) → all test s ≡ true → all test (take n s) ≡ true
all-take test zero s h = refl
all-take test (suc n) [] h = refl
all-take test (suc n) (c ∷ s) h = ground (arith, all-take test n s)

long_key-valid :
    (digest : Text) (n : ℕ)
    → all is_key_char digest ≡ true
    → n ≤ 48
    → is_project_key (long_key digest n) ≡ true
unfolding is_project_key
long_key-valid digest n h le =
    ground (arith, all-take is_key_char n digest h, length-take_le n digest)

short_key-valid :
    (digest : Text) → all is_key_char digest ≡ true → is_project_key (short_key digest) ≡ true
unfolding is_project_key
short_key-valid digest h =
    ground (arith, all-take is_key_char 62 digest h, length-take_le 62 digest)

first_free_lem :
    (reserved keys : List Text) (key : Text)
    → All (λ k. is_project_key k ≡ true) keys
    → first_free reserved keys ≡ ok key
    → (is_project_key key ≡ true) × (is_reserved reserved key ≡ false)
unfolding first_free
first_free_lem reserved [] key valid e = cc
first_free_lem reserved (k ∷ keys) key valid e = elim (Bool-cases (is_reserved reserved k)) [
  | inl taken ↦ first_free_lem reserved keys key valid.1 (ground arith)
  | inr free ↦
      let same : k ≡ key = ground arith in
      subst (λ k. (is_project_key k ≡ true) × (is_reserved reserved k ≡ false)) same (valid.0, free)
]

candidates-valid :
    (digest : Text)
    → all is_key_char digest ≡ true
    → All (λ k. is_project_key k ≡ true) (candidates digest)
candidates-valid digest h = (
  long_key-valid digest 16 h (omega arith),
  (
    long_key-valid digest 24 h (omega arith),
    (
      long_key-valid digest 32 h (omega arith),
      (long_key-valid digest 48 h (omega arith), (short_key-valid digest h, tt)),
    ),
  ),
)

-- A key that is made for a project matches the key pattern and is none of the reserved ones; a name
-- that matches and is not reserved is its own key. The digest must be made of key characters.
pub generated_project_key_lem :
    (sha256 : Text → Text) (name : Text) (reserved : List Text) (key : Text)
    → all is_key_char (sha256 name) ≡ true
    → generated_project_key sha256 name reserved ≡ ok key
    → (is_project_key key ≡ true)
      × (is_reserved reserved key ≡ false)
      × (is_project_key name ≡ true → is_reserved reserved name ≡ false → key ≡ name)
unfolding generated_project_key
generated_project_key_lem sha256 name reserved key hex e =
    elim (Bool-cases (is_project_key name && not (is_reserved reserved name))) [
      | inl own ↦
          let same : name ≡ key = ground arith in
          subst
            (λ k.
              (is_project_key k ≡ true)
              × (is_reserved reserved k ≡ false)
              × (is_project_key name ≡ true → is_reserved reserved name ≡ false → k ≡ name))
            same (ground arith, ground arith, λ valid free. refl)
      | inr other ↦
          let (valid, free) =
            first_free_lem reserved (candidates (sha256 name)) key
              (candidates-valid (sha256 name) hex) (ground arith) in
          (valid, free, λ own free_name. ground arith)
    ]

one_dot : is_dots (46 ∷ []) ≡ true
unfolding Text-discrete ℕ_discrete
one_dot = refl

two_dots : is_dots (46 ∷ 46 ∷ []) ≡ true
unfolding Text-discrete ℕ_discrete
two_dots = refl

tells_apart : (test : Text → Bool) (s t : Text) → test s ≡ false → test t ≡ true → s ≢ t
tells_apart test s t hs ht e = cc

-- A text that begins with no space.
abbrev starts_plain : Text → Bool
starts_plain [] = true
starts_plain (c ∷ s) = not (is_space c)

lstrip-starts_plain : (s : Text) → starts_plain (lstrip s) ≡ true
unfolding lstrip
lstrip-starts_plain [] = refl
lstrip-starts_plain (c ∷ s) = ground (arith, lstrip-starts_plain s)

lstrip-plain : (s : Text) → starts_plain s ≡ true → lstrip s ≡ s
unfolding lstrip
lstrip-plain [] h = refl
lstrip-plain (c ∷ s) h = ground arith

-- One character in front of what is left of the rest of a text.
abbrev kept_end : Bool → ℕ → Text → Text
kept_end is_end c [] = if is_end then [] else c ∷ []
kept_end is_end c (d ∷ ds) = c ∷ d ∷ ds

rstrip-cons : (c : ℕ) (s : Text) → rstrip (c ∷ s) ≡ kept_end (is_space c) c (rstrip s)
unfolding rstrip
rstrip-cons c s = refl

kept_end-starts_plain :
    (b : Bool) (c : ℕ) (rest : Text)
    → b ≡ is_space c
    → not b ≡ true
    → starts_plain (kept_end b c rest) ≡ true
kept_end-starts_plain true c rest e h = let bad : ⊥ = ground arith in absurd bad
kept_end-starts_plain false c [] e h = ap not (sym e)
kept_end-starts_plain false c (d ∷ ds) e h = ap not (sym e)

rstrip-starts_plain : (s : Text) → starts_plain s ≡ true → starts_plain (rstrip s) ≡ true
unfolding rstrip
rstrip-starts_plain [] h = refl
rstrip-starts_plain (c ∷ s) h =
    ap starts_plain (rstrip-cons c s) ∙ kept_end-starts_plain (is_space c) c (rstrip s) refl h

rstrip-kept_end :
    (b : Bool) (c : ℕ) (rest : Text)
    → b ≡ is_space c
    → rstrip rest ≡ rest
    → rstrip (kept_end b c rest) ≡ kept_end b c rest
unfolding rstrip
rstrip-kept_end true c [] e h = refl
rstrip-kept_end false c [] e h = rstrip-cons c [] ∙ ap (λ b. kept_end b c []) (sym e)
rstrip-kept_end b c (d ∷ ds) e h = rstrip-cons c (d ∷ ds) ∙ ap (kept_end (is_space c) c) h

rstrip-rstrip : (s : Text) → rstrip (rstrip s) ≡ rstrip s
unfolding rstrip
rstrip-rstrip [] = refl
rstrip-rstrip (c ∷ s) =
    ap rstrip (rstrip-cons c s)
    ∙ rstrip-kept_end (is_space c) c (rstrip s) refl (rstrip-rstrip s)
    ∙ sym (rstrip-cons c s)

strip-strip : (s : Text) → strip (strip s) ≡ strip s
strip-strip s =
    ap rstrip (lstrip-plain (strip s) (rstrip-starts_plain (lstrip s) (lstrip-starts_plain s)))
    ∙ rstrip-rstrip (lstrip s)

stripped_again : (value name : Text) → strip value ≡ name → strip name ≡ name
stripped_again value name e = ap strip (sym e) ∙ strip-strip value ∙ e

-- A project name that is accepted is one path component of at most 255 bytes, not empty, with no space at
-- its ends; validated again, it is accepted as it is.
pub validate_project_name_lem :
    (value name : Text)
    → validate_project_name value ≡ ok name
    → (validate_project_name name ≡ ok name)
      × (strip name ≡ name)
      × (any is_separator name ≡ false)
      × (any is_control name ≡ false)
      × (encoded_length name ≤ 255)
      × (name ≢ [])
      × (name ≢ 46 ∷ [])
      × (name ≢ 46 ∷ 46 ∷ [])
unfolding validate_project_name
validate_project_name_lem value name e =
    let same : strip value ≡ name = ground arith in
    let fixed : strip name ≡ name = stripped_again value name same in
    (
      rw (fixed, validate_project_name) (ground arith),
      fixed,
      ground arith,
      ground arith,
      ground arith,
      tells_apart is_blank name [] (ground arith) refl,
      tells_apart is_dots name (46 ∷ []) (ground arith) one_dot,
      tells_apart is_dots name (46 ∷ 46 ∷ []) (ground arith) two_dots,
    )
