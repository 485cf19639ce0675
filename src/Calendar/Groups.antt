-- ===== src/Calendar/Groups.antt =====
-- `groupByDate` of web/src/pages/monitor/MonitorCalendarView.tsx against a filter by the date, and
-- the order in which a day shows its certificates.
use mathlib.Core.List.{Perm}
use mathlib.Core.Path.{subst}
use tlsentinel_server.Common.{
  List, [], ◌∷◌, ◌++◌, Option, none, some, ◌≡◌, ◌↔◌, refl, sym, ap, ◌∙◌, arith, keep, or_else,
  append_assoc, append-nil, Bool-cases, inl, inr, if◌then◌else◌, sort_by-perm, sort_by-IsSortedBy,
  IsSortedBy,
}
use tlsentinel_server.Text.{Text, text_eq, text_eq_iff}
use tlsentinel_server.Text.Numbers.{less}
use tlsentinel_server.Text.Numbers.Order.{less-asymmetric, less-transitive}
use tlsentinel_server.Api.Certificates.{ExpiringCertItem}
use tlsentinel_server.Calendar.{
  ByDate, to_date_key, get_date, add_cert, group_from, group_by_date, certs_of,
}

-- The certificates of a day, without the map.
abbrev pub on_day : Text → List ExpiringCertItem → List ExpiringCertItem
on_day k items = keep (λ c. text_eq (to_date_key c.not_after) k) items

some_of : List ExpiringCertItem → Option (List ExpiringCertItem)
some_of [] = none
some_of (c ∷ cs) = some (c ∷ cs)

more_of : Option (List ExpiringCertItem) → List ExpiringCertItem → Option (List ExpiringCertItem)
more_of none cs = some_of cs
more_of (some bs) cs = some (bs ++ cs)

get_date-add_cert :
    (k j : Text) (c : ExpiringCertItem) (m : ByDate)
    → get_date k (add_cert j c m)
      ≡ (if text_eq j k then more_of (get_date k m) (c ∷ []) else get_date k m)
unfolding get_date add_cert more_of some_of
get_date-add_cert k j c [] = refl
get_date-add_cert k j c ((i, certs) ∷ m) =
    ground (arith, get_date-add_cert k j c m, text_eq_iff i j, text_eq_iff j k, text_eq_iff i k)

more_of-more_of :
    (o : Option (List ExpiringCertItem)) (c : ExpiringCertItem) (cs : List ExpiringCertItem)
    → more_of (more_of o (c ∷ [])) cs ≡ more_of o (c ∷ cs)
unfolding more_of some_of
more_of-more_of none c cs = refl
more_of-more_of (some bs) c cs = ap some (append_assoc bs (c ∷ []) cs)

more_of-nil : (o : Option (List ExpiringCertItem)) → more_of o [] ≡ o
unfolding more_of some_of
more_of-nil none = refl
more_of-nil (some bs) = ap some (append-nil bs)

get_date-group_from :
    (k : Text) (m : ByDate) (items : List ExpiringCertItem)
    → get_date k (group_from m items) ≡ more_of (get_date k m) (on_day k items)
unfolding group_from
get_date-group_from k m [] = sym (more_of-nil (get_date k m))
get_date-group_from k m (c ∷ cs) =
    get_date-group_from k (add_cert (to_date_key c.not_after) c m) cs
    ∙ ap (λ o. more_of o (on_day k cs)) (get_date-add_cert k (to_date_key c.not_after) c m)
    ∙ elim (Bool-cases (text_eq (to_date_key c.not_after) k)) [
      | inl p ↦ rw p (more_of-more_of (get_date k m) c (on_day k cs))
      | inr p ↦ rw p refl
    ]

of_list :
    (cs : List ExpiringCertItem) (o : Option (List ExpiringCertItem))
    → o ≡ some_of cs
    → (or_else o [] ≡ cs) × ((o ≡ none) ↔ (cs ≡ []))
unfolding some_of
of_list [] o e = rw e (refl, ((λ _. refl), λ _. refl))
of_list (c ∷ cs) o e = rw e (refl, ((λ p. ground arith), λ p. ground arith))

-- The map has for each date the certificates that expire on it, in the order of the list, and no
-- entry for a date without any.
pub get_date-group_by_date :
    (k : Text) (items : List ExpiringCertItem)
    → (or_else (get_date k (group_by_date items)) [] ≡ on_day k items)
      × ((get_date k (group_by_date items) ≡ none) ↔ (on_day k items ≡ []))
unfolding group_by_date get_date more_of
get_date-group_by_date k items = of_list (on_day k items) _ (get_date-group_from k [] items)

-- What a day shows are the certificates that expire on it, each as often as in the list, with the
-- fewest days left first.
pub certs_of-group_by_date :
    (k : Text) (items : List ExpiringCertItem)
    → Perm (certs_of k (group_by_date items)) (on_day k items)
      × IsSortedBy
          (λ a b. less a.days_remaining b.days_remaining)
          (certs_of k (group_by_date items))
unfolding certs_of
certs_of-group_by_date k items = (
  subst (Perm _) (get_date-group_by_date k items).0 (sort_by-perm _ _),
  sort_by-IsSortedBy {A = ExpiringCertItem} _
      (λ a b. less-asymmetric a.days_remaining b.days_remaining)
      (λ a b c. less-transitive a.days_remaining b.days_remaining c.days_remaining)
      (or_else (get_date k (group_by_date items)) []),
)
