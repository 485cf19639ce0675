-- ===== src/Listing/Stores/Order.antt =====
-- The tabs of web/src/pages/root-stores/RootStoresPage.tsx are the stores, each once.
use mathlib.Core.List.{Perm, perm_middle}
use mathlib.Core.List.Perm
use mathlib.Core.Path.{subst}
use tlsentinel_server.Common.{
  true, false, not, List, [], ◌∷◌, ◌++◌, Option, none, some, ◌≡◌, refl, sym, ap, ◌∙◌, arith, keep,
  any, All, if◌then◌else◌, Bool-cases, inl, inr, append_assoc, All-keep,
}
use tlsentinel_server.Text.{Text, text_eq, text_eq_iff}
use tlsentinel_server.Types.Certificates.{RootStoreSummary}
use tlsentinel_server.Listing.Stores.{
  has_id, by_id, later, as_list, preferred, others, ordered_stores, store_order,
}

abbrev without : Text → List RootStoreSummary → List RootStoreSummary
without id stores = keep (λ s. not (has_id id s)) stores

-- No two stores have the same id.
abbrev pub HasDistinctIds : List RootStoreSummary → Type 0
HasDistinctIds [] = Unit
HasDistinctIds (s ∷ stores) = All (λ t. text_eq t.id s.id ≡ false) stores × HasDistinctIds stores

by_id_absent :
    (id : Text) (stores : List RootStoreSummary)
    → All (λ t. text_eq t.id id ≡ false) stores
    → (by_id id stores ≡ none) × (without id stores ≡ stores)
unfolding by_id
by_id_absent id [] h = (refl, refl)
by_id_absent id (s ∷ stores) (p, h) =
    let (absent, same) = by_id_absent id stores h in
    (rw (absent, by_id, p) refl, rw p (ap (◌∷◌ s) same))

later_none : (o : Option RootStoreSummary) → later o none ≡ o
later_none none = refl
later_none (some t) = refl

-- Taking the store with an id out and putting it first.
by_id-perm :
    (id : Text) (stores : List RootStoreSummary)
    → HasDistinctIds stores
    → Perm (as_list (by_id id stores) ++ without id stores) stores
unfolding by_id
by_id-perm id [] h = Perm.refl []
by_id-perm id (s ∷ stores) (h, k) = elim (Bool-cases (has_id id s)) [
  | inl p ↦
      let here : All (λ t. text_eq t.id id ≡ false) stores =
        subst (λ j. All (λ t. text_eq t.id j ≡ false) stores) ((text_eq_iff s.id id).0 p) h in
      rw (p, (by_id_absent id stores here).0, (by_id_absent id stores here).1)
        (Perm.refl (s ∷ stores))
  | inr p ↦
      rw (p, later_none (by_id id stores))
        (Perm.trans (perm_middle (as_list (by_id id stores)) (without id stores))
          (Perm.cons s (by_id-perm id stores k)))
]

without-HasDistinctIds :
    (id : Text) (stores : List RootStoreSummary)
    → HasDistinctIds stores
    → HasDistinctIds (without id stores)
without-HasDistinctIds id [] h = tt
without-HasDistinctIds id (s ∷ stores) (h, k) = elim (Bool-cases (has_id id s)) [
  | inl p ↦ rw p (without-HasDistinctIds id stores k)
  | inr p ↦ rw p (All-keep _ _ stores h, without-HasDistinctIds id stores k)
]

by_id-without :
    (id j : Text) (stores : List RootStoreSummary)
    → text_eq id j ≡ false
    → by_id j (without id stores) ≡ by_id j stores
unfolding by_id
by_id-without id j [] h = refl
by_id-without id j (s ∷ stores) h = elim (Bool-cases (has_id id s)) [
  | inl p ↦
      let other : has_id j s ≡ false =
        subst (λ k. text_eq k j ≡ false) (sym ((text_eq_iff s.id id).0 p)) h in
      rw (p, other, later_none (by_id j stores)) (by_id-without id j stores h)
  | inr p ↦
      rw p (ap (λ o. later o (if has_id j s then some s else none)) (by_id-without id j stores h))
]

preferred-without :
    (id : Text) (ids : List Text) (stores : List RootStoreSummary)
    → All (λ j. text_eq id j ≡ false) ids
    → preferred ids (without id stores) ≡ preferred ids stores
unfolding preferred
preferred-without id [] stores h = refl
preferred-without id (j ∷ ids) stores (p, h) =
    rw (by_id-without id j stores p, preferred-without id ids stores h) refl

swapped : (j k : Text) → text_eq j k ≡ true → text_eq k j ≡ true
swapped j k h = ground (arith, text_eq_iff j k, text_eq_iff k j)

unswapped : (j k : Text) → text_eq j k ≡ false → text_eq k j ≡ false
unswapped j k h = ground (arith, text_eq_iff j k, text_eq_iff k j)

others-without :
    (id : Text) (ids : List Text) (stores : List RootStoreSummary)
    → others ids (without id stores) ≡ others (id ∷ ids) stores
others-without id ids [] = refl
others-without id ids (s ∷ stores) = elim (Bool-cases (has_id id s)) [
  | inl p ↦ rw (p, swapped s.id id p) (others-without id ids stores)
  | inr p ↦
      rw (p, unswapped s.id id p)
        (ap (λ l. if not (any (λ j. text_eq j s.id) ids) then s ∷ l else l)
          (others-without id ids stores))
]

abbrev AreDistinct : List Text → Type 0
AreDistinct [] = Unit
AreDistinct (id ∷ ids) = All (λ j. text_eq id j ≡ false) ids × AreDistinct ids

keep_all : (stores : List RootStoreSummary) → others [] stores ≡ stores
keep_all [] = refl
keep_all (s ∷ stores) = ap (◌∷◌ s) (keep_all stores)

preferred-perm :
    (ids : List Text) (stores : List RootStoreSummary)
    → AreDistinct ids
    → HasDistinctIds stores
    → Perm (preferred ids stores ++ others ids stores) stores
unfolding preferred
preferred-perm [] stores d h = subst (λ l. Perm l stores) (sym (keep_all stores)) (Perm.refl stores)
preferred-perm (id ∷ ids) stores (p, d) h =
    let first = as_list (by_id id stores) in
    let rest = without id stores in
    let e : preferred (id ∷ ids) stores ++ others (id ∷ ids) stores
        ≡ first ++ (preferred ids rest ++ others ids rest) =
      append_assoc first (preferred ids stores) (others (id ∷ ids) stores)
      ∙ ap (λ l. first ++ (l ++ others (id ∷ ids) stores)) (sym (preferred-without id ids stores p))
      ∙ ap (λ l. first ++ (preferred ids rest ++ l)) (sym (others-without id ids stores)) in
    subst (λ l. Perm l stores) (sym e)
      (Perm.trans
        (Perm.append_left first (preferred-perm ids rest d (without-HasDistinctIds id stores h)))
        (by_id-perm id stores h))

order_is_distinct : AreDistinct store_order
unfolding text_eq
order_is_distinct = ((refl, (refl, (refl, tt))), ((refl, (refl, tt)), ((refl, tt), (tt, tt))))

-- The tabs are the stores of the server, each once, when no two of them have the same id.
pub ordered_stores-perm :
    (stores : List RootStoreSummary)
    → HasDistinctIds stores
    → Perm (ordered_stores (some stores)) stores
unfolding ordered_stores
ordered_stores-perm stores h = preferred-perm store_order stores order_is_distinct h
