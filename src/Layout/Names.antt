-- ===== src/Layout/Names.antt =====
-- What the names of internal/layout/layout.go keep apart.
use mathlib.Core.List.{append_assoc}
use go_certs_manager.Base.{
  Bool, Bool-cases, List, Text, [], any, ap, append-trim_suffix, arith, false, has_suffix,
  has_suffix-append, inl, inr, refl, sym, to_lower, trim_suffix, trim_suffix-append,
  trim_suffix_absent, true, ◌++◌, ◌==◌, ◌↔◌, ◌∙◌, ◌∷◌, ◌≡◌, ◌≢◌,
}
use go_certs_manager.Layout.{
  cert_domain, chain, chain_dir, companion, companion_suffix, is_companion, key, key_dir, next_key,
  next_key_suffix,
}

pub append_cancel {ℓ} : {A : Type ℓ} (p s t : List A) → p ++ s ≡ p ++ t → s ≡ t
append_cancel [] s t e = e
append_cancel (x ∷ p) s t e = append_cancel p s t (ground arith)

any-append_right {ℓ} :
    {A : Type ℓ} (p : A → Bool) (xs ys : List A) → any p ys ≡ true → any p (xs ++ ys) ≡ true
any-append_right p [] ys h = h
any-append_right p (x ∷ xs) ys h = ground (arith, any-append_right p xs ys h)

abbrev pub has_plus : Text → Bool
has_plus = any (λ c. c == b'+')

not-has_suffix : (d : Text) → has_plus d ≡ false → has_suffix d companion_suffix ≡ false
not-has_suffix d plain = elim (Bool-cases (has_suffix d companion_suffix)) [
  | inl ends ↦
      let whole = append-trim_suffix d companion_suffix ends in
      let plus =
        any-append_right (λ c. c == b'+') (trim_suffix d companion_suffix) companion_suffix refl in
      absurd (ground (arith, ap has_plus whole))
  | inr other ↦ other
]

-- For a hostname, which has no `+` in it: it is no companion's name and is its own domain; its
-- companion's name is a companion's, and leads back to the hostname in lower case.
pub companion-cert_domain :
    (domain : Text)
    → has_plus domain ≡ false
    → (is_companion domain ≡ false)
      × (cert_domain domain ≡ domain)
      × (is_companion (companion domain) ≡ true)
      × (cert_domain (companion domain) ≡ to_lower domain)
unfolding companion is_companion cert_domain
companion-cert_domain domain plain =
    let absent = not-has_suffix domain plain in
    (
      absent,
      trim_suffix_absent domain companion_suffix absent,
      has_suffix-append (to_lower domain) companion_suffix,
      trim_suffix-append (to_lower domain) companion_suffix,
    )

module _ (prefix a b : Text) where
  chain-ne-key : (s : Text) → chain prefix a ≢ prefix ++ (key_dir ++ s)
  unfolding chain
  chain-ne-key s e =
      let rest = append_cancel prefix (chain_dir ++ to_lower a) (key_dir ++ s) e in ground arith

  next_key-append : next_key prefix b ≡ prefix ++ (key_dir ++ (to_lower b ++ next_key_suffix))
  unfolding next_key
  next_key-append = append_assoc prefix (key_dir ++ to_lower b) next_key_suffix

  key-injective : (s : Text) → key prefix a ≡ prefix ++ (key_dir ++ s) → to_lower a ≡ s
  unfolding key
  key-injective s e =
      append_cancel key_dir (to_lower a) s
        (append_cancel prefix (key_dir ++ to_lower a) (key_dir ++ s) e)

  chain-injective : chain prefix a ≡ chain prefix b → to_lower a ≡ to_lower b
  unfolding chain
  chain-injective e =
      append_cancel chain_dir (to_lower a) (to_lower b)
        (append_cancel prefix (chain_dir ++ to_lower a) (chain_dir ++ to_lower b) e)

  -- A chain is never filed where a live or a staged key is; two chains, or two live keys, share
  -- an object exactly when their names differ in case only; and a live key is filed where a
  -- staged key is exactly when its name is the other's with `.next` behind it.
  pub slots_apart :
      (chain prefix a ≢ key prefix b)
      × (chain prefix a ≢ next_key prefix b)
      × ((chain prefix a ≡ chain prefix b) ↔ (to_lower a ≡ to_lower b))
      × ((key prefix a ≡ key prefix b) ↔ (to_lower a ≡ to_lower b))
      × ((key prefix a ≡ next_key prefix b) ↔ (to_lower a ≡ to_lower b ++ next_key_suffix))
  unfolding chain key
  slots_apart = (
    chain-ne-key (to_lower b),
    λ e. chain-ne-key (to_lower b ++ next_key_suffix) (e ∙ next_key-append),
    (chain-injective, λ e. ap (λ s. prefix ++ (chain_dir ++ s)) e),
    (key-injective (to_lower b), λ e. ap (λ s. prefix ++ (key_dir ++ s)) e),
    (
      λ e. key-injective (to_lower b ++ next_key_suffix) (e ∙ next_key-append),
      λ e. ap (λ s. prefix ++ (key_dir ++ s)) e ∙ sym next_key-append,
    ),
  )
