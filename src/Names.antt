-- ===== src/Names.antt =====
-- names.go: the one spelling that a name is filed under. idna.Lookup.ToASCII is the parameter
-- `to_ascii`, `none` where it fails; white space is that of ASCII.
-- `n != ""`
use go_certs_manager.Base.{
  Bool, List, Map, Option, Text, [], any, arith, codes, false, has_key, has_key-insert, insert,
  keep_if, map, none, refl, some, text_eq, to_lower, trim_space, trim_suffix, true, ◌∙◌, ◌∷◌, ◌≡◌,
}

unfoldable pub is_named : Text → Bool
is_named [] = false
is_named (c ∷ s) = true

-- The loop `for _, n := range names { set[n] = true }`.
unfoldable pub set_of : List Text → Map (Unit {0})
set_of [] = []
set_of (n ∷ names) = insert n tt (set_of names)

pub has_key-set_of :
    (names : List Text) (d : Text) → has_key d (set_of names) ≡ any (λ n. text_eq n d) names
unfolding set_of has_key
has_key-set_of [] d = refl
has_key-set_of (n ∷ names) d =
    has_key-insert n d tt (set_of names) ∙ ground (arith, has_key-set_of names d)

module _ (to_ascii : Text → Option Text) where
  unfoldable pub normalize_domain : Text → Text
  normalize_domain name =
      let trimmed = trim_suffix (to_lower (trim_space name)) (codes ".") in
      elim (to_ascii trimmed) [ none ↦ trimmed | some [] ↦ trimmed | some (c ∷ s) ↦ c ∷ s ]

  unfoldable pub normalize_domains : List Text → List Text
  unfolding normalize_domain
  normalize_domains ds = keep_if is_named (map normalize_domain ds)

  unfoldable pub domain_set_of : List Text → Map (Unit {0})
  unfolding normalize_domains
  domain_set_of ds = set_of (normalize_domains ds)

  -- A name is in the set exactly if one of the names is filed under it.
  pub domain_set_of_lem :
      (ds : List Text) (d : Text)
      → has_key d (domain_set_of ds) ≡ any (λ n. text_eq n d) (normalize_domains ds)
  unfolding domain_set_of
  domain_set_of_lem ds d = has_key-set_of (normalize_domains ds) d
