-- ===== src/Tenancy/Names.antt =====
-- tenancy.py, `_canonical_username`: the names of workspace directories.
use agent_app_server.Base.{
  ℕ, ◌≡◌, ◌≢◌, refl, true, false, ◌&&◌, ◌||◌, [], ◌∷◌, map, ok, arith, leb, ◌==◌, all, any, length,
}
use agent_app_server.Tenancy.{
  Text, is_space, lstrip, rstrip, lower, is_name_char, is_username, canonical_username,
}

lower-name_char : (c : ℕ) → is_name_char c ≡ true → lower c ≡ c
lower-name_char c h = ground arith

map-lower : (s : Text) → all is_name_char s ≡ true → map lower s ≡ s
map-lower [] h = refl
map-lower (c ∷ s) h = rw (lower-name_char c (ground arith), map-lower s (ground arith)) refl

space-name_char : (c : ℕ) → is_name_char c ≡ true → is_space c ≡ false
space-name_char c h = ground arith

rstrip-name : (s : Text) → all is_name_char s ≡ true → rstrip s ≡ s
unfolding rstrip
rstrip-name [] h = refl
rstrip-name (c ∷ s) h = ground (arith, space-name_char c, rstrip-name s)

lstrip-name : (s : Text) → all is_name_char s ≡ true → lstrip s ≡ s
unfolding lstrip
lstrip-name [] h = refl
lstrip-name (c ∷ s) h = ground (arith, space-name_char c)

username-chars : (s : Text) → is_username s ≡ true → all is_name_char s ≡ true
unfolding is_username
username-chars [] h = cc
username-chars (c ∷ s) h = ground arith

canonical_ok : (value name : Text) → canonical_username value ≡ ok name → is_username name ≡ true
unfolding canonical_username
canonical_ok value name h = ground arith

no_separator :
    (s : Text) → all is_name_char s ≡ true → any (λ c. c == 47 || c == 92 || c == 0) s ≡ false
no_separator [] h = refl
no_separator (c ∷ s) h = ground (arith, no_separator s)

-- A path component that names a child of the directory it is joined to.
pub record IsPlainName (name : Text) : Type 0 where
  pub bounded : (leb 1 (length name) && leb (length name) 128) ≡ true
  pub no_separators : any (λ c. c == 47 || c == 92 || c == 0) name ≡ false
  pub not_dotted : (rest : Text) → name ≢ 46 ∷ rest

username-IsPlainName : (s : Text) → is_username s ≡ true → IsPlainName s
unfolding is_username
username-IsPlainName [] h = cc
username-IsPlainName (c ∷ s) h = record {
  bounded = ground arith;
  no_separators = no_separator (c ∷ s) (ground arith);
  not_dotted = λ rest e. ground arith;
}

-- A user name that is accepted becomes a directory name of 1 to 128 characters that has no path
-- separator and does not begin with a dot, and that is its own canonical form.
pub canonical_username_lem :
    (value name : Text)
    → canonical_username value ≡ ok name
    → IsPlainName name × (canonical_username name ≡ ok name)
unfolding canonical_username
canonical_username_lem value name h =
    let fits = canonical_ok value name h in
    let chars = username-chars name fits in
    (
      username-IsPlainName name fits,
      rw (lstrip-name name chars, rstrip-name name chars, map-lower name chars, fits) refl,
    )
