-- ===== src/CertCache/Build.antt =====
-- What buildCertificate of cert_cache.go pairs.
use go_certs_manager.Base.{
  Bool, Bool-cases, List, [], ap, arith, false, if◌then◌else◌, inl, inr, keep_if, refl, subst, sym,
  text_eq, text_eq_iff, true, ◌↔◌, ◌∙◌, ◌∷◌, ◌≡◌,
}
use go_certs_manager.CertCache.{
  absent_from_storage, blocks_of, build_certificate, certificates, parse_leaf,
  verify_key_matches_leaf,
}
use go_certs_manager.Effects.{
  Block, Certificate, Content, Error, Leaf, Result, Signer, bad_certificate, certificate, err,
  key_mismatch, ok, on_ok, other_block, pem_chain,
}

-- The blocks of type CERTIFICATE.
abbrev pub is_certificate : Block → Bool
is_certificate (certificate l) = true
is_certificate bad_certificate = true
is_certificate other_block = false

abbrev pub BeginsWith : Leaf → List Block → Type 0
BeginsWith l bs = (rest : List Block) × (bs ≡ certificate l ∷ rest)

-- What the certificate has to do with the stored blocks and the key.
abbrev pub Paired : List Block → Signer → Certificate → Type 0
Paired bs s cert =
    (cert.chain ≡ keep_if is_certificate bs)
    × (cert.private_key ≡ s)
    × (cert.leaf.spki ≡ s.spki)
    × BeginsWith cert.leaf cert.chain

ok-injective {ℓ} : {A : Type ℓ} (a b : A) → ok a ≡ ok b → a ≡ b
ok-injective a b h = ground arith

certificates_lem : (bs : List Block) → certificates bs ≡ keep_if is_certificate bs
unfolding certificates
certificates_lem [] = refl
certificates_lem (certificate l ∷ bs) = ap (◌∷◌ (certificate l)) (certificates_lem bs)
certificates_lem (bad_certificate ∷ bs) = ap (◌∷◌ bad_certificate) (certificates_lem bs)
certificates_lem (other_block ∷ bs) = certificates_lem bs

parse_leaf_iff : (bs : List Block) (l : Leaf) → (parse_leaf bs ≡ ok l) ↔ BeginsWith l bs
unfolding parse_leaf
parse_leaf_iff [] l = (λ h. absurd (ground (arith, h)), λ h. absurd (ground (arith, h.1)))
parse_leaf_iff (certificate m ∷ bs) l =
    (λ h. (bs, ap (λ x. certificate x ∷ bs) (ok-injective m l h)), λ h. ap parse_leaf h.1)
parse_leaf_iff (bad_certificate ∷ bs) l =
    (λ h. absurd (ground (arith, h)), λ h. absurd (ground (arith, h.1)))
parse_leaf_iff (other_block ∷ bs) l =
    (λ h. absurd (ground (arith, h)), λ h. absurd (ground (arith, h.1)))

-- buildCertificate, once the blocks are known.
unfoldable built_from : List Block → Signer → Result Certificate
unfolding parse_leaf verify_key_matches_leaf
built_from bs s =
    on_ok (parse_leaf bs) (λ e. err e)
      λ l.
        if verify_key_matches_leaf s l
        then ok (record { chain = bs; private_key = s; leaf = l })
        else err key_mismatch

abbrev pub build_of : List Block → Leaf → Signer → Certificate
build_of bs l s = record { chain = certificate l ∷ bs; private_key = s; leaf = l }

paired_from :
    (bs : List Block) (l : Leaf) (s : Signer) (cert : Certificate)
    → built_from (certificate l ∷ bs) s ≡ ok cert
    → (cert.chain ≡ certificate l ∷ bs)
      × (parse_leaf cert.chain ≡ ok cert.leaf)
      × (cert.private_key ≡ s)
      × (cert.leaf.spki ≡ s.spki)
unfolding built_from verify_key_matches_leaf parse_leaf
paired_from bs l s cert h = elim (Bool-cases (text_eq s.spki l.spki)) [
  | inr other ↦ absurd (ground (arith, h, other))
  | inl same ↦
      let made = ok-injective (build_of bs l s) cert (ground (arith, h, same)) in
      subst
        (λ c.
          (c.chain ≡ certificate l ∷ bs)
          × (parse_leaf c.chain ≡ ok c.leaf)
          × (c.private_key ≡ s)
          × (c.leaf.spki ≡ s.spki))
        made (refl, refl, refl, sym ((text_eq_iff s.spki l.spki).0 same))
]

paired_to :
    (bs : List Block) (l : Leaf) (s : Signer) (cert : Certificate)
    → (cert.chain ≡ certificate l ∷ bs)
      × (parse_leaf cert.chain ≡ ok cert.leaf)
      × (cert.private_key ≡ s)
      × (cert.leaf.spki ≡ s.spki)
    → built_from (certificate l ∷ bs) s ≡ ok cert
unfolding built_from verify_key_matches_leaf parse_leaf
paired_to bs l s cert (e1, e2, e3, e4) =
    let leaf_is = ok-injective l cert.leaf (sym (ap parse_leaf e1) ∙ e2) in
    let same = (text_eq_iff s.spki l.spki).1 (sym (ap (λ x. x.spki) leaf_is ∙ e4)) in
    let made : build_of bs l s ≡ cert =
      λ i. record { chain = sym e1 i; private_key = sym e3 i; leaf = leaf_is i } in
    rw same (ap (λ c. ok c) made)

built_from_iff :
    (bs : List Block) (s : Signer) (cert : Certificate)
    → (built_from bs s ≡ ok cert) ↔ (
        (cert.chain ≡ bs)
        × (parse_leaf cert.chain ≡ ok cert.leaf)
        × (cert.private_key ≡ s)
        × (cert.leaf.spki ≡ s.spki))
unfolding built_from parse_leaf
built_from_iff [] s cert = (λ h. ground arith, λ h. ground arith)
built_from_iff (certificate l ∷ bs) s cert = (paired_from bs l s cert, paired_to bs l s cert)
built_from_iff (_ ∷ bs) s cert = (λ h. ground arith, λ h. ground arith)

-- From a stored PEM chain and a key a certificate is built exactly when its chain is all the blocks
-- of type CERTIFICATE in their order, the first of them parses and is its leaf, its key is the one
-- given, and the leaf is for that key; so a chain whose leaf is for another key, or does not parse,
-- gives none.
pub build_certificate-Paired :
    (bs : List Block) (s : Signer) (cert : Certificate)
    → (build_certificate (pem_chain bs) s ≡ ok cert) ↔ Paired bs s cert
unfolding build_certificate built_from blocks_of
build_certificate-Paired bs s cert = (
  λ h.
      let (chain', leaf', key', bound) = (built_from_iff (certificates bs) s cert).0 h in
      (chain' ∙ certificates_lem bs, key', bound, (parse_leaf_iff cert.chain cert.leaf).0 leaf'),
  λ h.
      (built_from_iff (certificates bs) s cert).1
        (h.0 ∙ sym (certificates_lem bs), (parse_leaf_iff cert.chain cert.leaf).1 h.3, h.1, h.2),
)

-- The errors of buildCertificate are none of storage's.
pub build-absent :
    (d : Content) (s : Signer) (e : Error)
    → build_certificate d s ≡ err e
    → absent_from_storage e ≡ false
unfolding build_certificate built_from parse_leaf absent_from_storage
build-absent d s e h = go (certificates (blocks_of d)) h
  where
    go : (bs : List Block) → built_from bs s ≡ err e → absent_from_storage e ≡ false
    go [] h' = ground (arith, h')
    go (certificate l ∷ bs) h' = elim (Bool-cases (verify_key_matches_leaf s l)) [
      | inl same ↦ absurd (ground (arith, h', same))
      | inr other ↦ ground (arith, h', other)
    ]
    go (_ ∷ bs) h' = ground (arith, h')
