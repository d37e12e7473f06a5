-- ===== src/OnDemand/Catching.antt =====
-- How a follower of ondemand.go catches up with the published index.
use go_certs_manager.Base.{
  Bool-cases, List, Map, Text, [], ap, arith, false, if◌then◌else◌, inl, inr, insert, keep_if,
  lookup-insert_ne, lookup-insert_self, map, not, refl, subst, sym, text_eq, text_eq_flip,
  text_eq_iff, to_lower, ℕ, ◌==◌, ◌∷◌, ◌≡◌,
}
use go_certs_manager.Effects.{get_object, index_json, ok, ◌>>=◌}
use go_certs_manager.Effects.World.{Handler, run}
use go_certs_manager.OnDemand.{OnDemand, cert_index_key, entries, entry, or_zero}
use go_certs_manager.OnDemand.Index.{
  changed_since, compared, differs, note_refreshed, read_index, refreshed, with_entry,
}

-- One adopted entry settles its own hostname and no other.
entry-insert_self : (h : Text) (t : ℕ) (seen : Map ℕ) → entry h (insert h t seen) ≡ t
unfolding entry
entry-insert_self h t seen = ap or_zero (lookup-insert_self h t seen)

entry-insert_ne :
    (h n : Text) (t : ℕ) (seen : Map ℕ)
    → text_eq h n ≡ false
    → entry n (insert h t seen) ≡ entry n seen
unfolding entry
entry-insert_ne h n t seen e = ap or_zero (lookup-insert_ne h n t seen e)

same_entry : (a b : ℕ) → a ≡ b → not (b == a) ≡ false
same_entry a b e = ground arith

differs-insert_self :
    (published seen : Map ℕ) (h : Text)
    → differs published (insert h (entry h published) seen) h ≡ false
unfolding differs
differs-insert_self published seen h =
    same_entry (entry h (insert h (entry h published) seen)) (entry h published)
      (entry-insert_self h (entry h published) seen)

differs-insert :
    (published seen : Map ℕ) (h n : Text)
    → differs published (insert h (entry h published) seen) n
      ≡ (if text_eq n h then false else differs published seen n)
unfolding differs
differs-insert published seen h n = elim (Bool-cases (text_eq n h)) [
  | inl same ↦ rw same (
      subst (λ q. differs published (insert h (entry h published) seen) q ≡ false)
        (sym ((text_eq_iff n h).0 same)) (differs-insert_self published seen h))
  | inr other ↦ rw other (
      ap (λ t. not (entry n published == t))
        (entry-insert_ne h n (entry h published) seen (text_eq_flip n h other)))
]

pub keep_if-differs :
    (published seen : Map ℕ) (h : Text) (names : List Text)
    → keep_if (differs published (insert h (entry h published) seen)) names
      ≡ keep_if (λ n. not (text_eq n h)) (keep_if (differs published seen) names)
keep_if-differs published seen h [] = refl
keep_if-differs published seen h (n ∷ names) =
    ground (arith, differs-insert published seen h n, keep_if-differs published seen h names)

module _ {W : Type 0} (h : Handler W) (published : Map ℕ) (w : W) where
  -- While the published index stays as it is, a follower that notes a hostname as refreshed is
  -- told the same hostnames as before to refresh, in the same order, without that one.
  pub note_refreshed-changed_since :
      (o : OnDemand) (host : Text) (names : List Text)
      → h (get_object (cert_index_key o)) w ≡ (ok (index_json published), w)
      → (run h (do o' ← note_refreshed host o; changed_since names o') w).0.0
        ≡ keep_if (λ n. not (text_eq n (to_lower host))) (run h (changed_since names o) w).0.0
  unfolding run note_refreshed refreshed changed_since compared read_index with_entry entries
  note_refreshed-changed_since o host names reads =
      rw (reads, reads)
        (keep_if-differs published (entries o.index) (to_lower host) (map to_lower names))
