-- ===== src/Renewals/Recorded.antt =====
-- What the loop over the lines records is what it has changed.
use swo_adobe_vipm_extension.Base.{
  ℕ, ◌≡◌, refl, ap, sym, ◌∙◌, String, Option, none, some, List, [], ◌∷◌, ◌++◌, map, Bool, true,
  false, ◌==◌, eq_iff, eqb, if◌then◌else◌, All, arith, Bool-cases, inl, inr,
}
use swo_adobe_vipm_extension.Context.{Exception, adobe_api}
use swo_adobe_vipm_extension.Dict.{Dict, lookup, insert, lookup-insert}
use swo_adobe_vipm_extension.Order.{Line}
use swo_adobe_vipm_extension.Order.Updated.{last_quantity, or_else}
use swo_adobe_vipm_extension.Renewals.{
  OrderSubscription, Updated, ChangeContext, Outside, Run, get_subscription_by_line_and_item_id,
  is_allowed, add_updated, refuse_update, set_renewal, answered, with_subscription,
  for_subscription, update_line, go_on, update_lines,
}

abbrev pub olds : List Updated → List (String × ℕ)
olds updated = map (λ u. (u.vendor, u.old_quantity)) updated

last_quantity_snoc :
    (k v : String) (n : ℕ) (xs : List (String × ℕ))
    → last_quantity k (xs ++ (v, n) ∷ []) ≡ (if v == k then some n else last_quantity k xs)
last_quantity_snoc k v n [] = ground arith
last_quantity_snoc k v n ((j, m) ∷ xs) = ground (arith, last_quantity_snoc k v n xs)

olds_snoc :
    (updated : List Updated) (u : Updated)
    → olds (updated ++ u ∷ []) ≡ olds updated ++ (u.vendor, u.old_quantity) ∷ []
olds_snoc [] u = refl
olds_snoc (x ∷ updated) u = ap (λ rest. (x.vendor, x.old_quantity) ∷ rest) (olds_snoc updated u)

-- The Adobe subscription of a line.
abbrev pub find : List OrderSubscription → Line → Option OrderSubscription
find subs line = get_subscription_by_line_and_item_id subs line.item.id line.id

-- No two of the lines have the same Adobe subscription.
abbrev pub AreDistinct : List OrderSubscription → List Line → Type 0
AreDistinct subs [] = Unit
AreDistinct subs (line ∷ lines) =
    All
      (λ l.
        (s s2 : OrderSubscription)
        → find subs line ≡ some s
        → find subs l ≡ some s2
        → s.vendor == s2.vendor ≡ false)
      lines
    × AreDistinct subs lines

module _ (subs : List OrderSubscription) (q0 : Dict ℕ) where
  -- What `updated` records of the quantities at the start, `q0`.
  pub record Inv (c : ChangeContext) : Type 0 where
    pub same_subs : c.order_subscriptions ≡ subs
    pub back :
        (k : String)
        → or_else (last_quantity k (olds c.updated)) (lookup k c.quantities) ≡ lookup k q0
    pub entries : All (λ u. lookup u.vendor q0 ≡ some u.old_quantity) c.updated

  abbrev pub Fresh : ChangeContext → Line → Type 0
  Fresh c line =
      (s : OrderSubscription)
      → find subs line ≡ some s
      → last_quantity s.vendor (olds c.updated) ≡ none

  -- A line adds at most one entry, of its own subscription.
  data Grown (line : Line) (c c2 : ChangeContext) : Type 0 where
    same : olds c2.updated ≡ olds c.updated → Grown line c c2
    grown :
        (s : OrderSubscription) (n : ℕ)
        → find subs line ≡ some s
        → olds c2.updated ≡ olds c.updated ++ (s.vendor, n) ∷ []
        → Grown line c c2

  entries_snoc :
      (updated : List Updated) (u : Updated)
      → All (λ u. lookup u.vendor q0 ≡ some u.old_quantity) updated
      → lookup u.vendor q0 ≡ some u.old_quantity
      → All (λ u. lookup u.vendor q0 ≡ some u.old_quantity) (updated ++ u ∷ [])
  entries_snoc [] u h k = (k, tt)
  entries_snoc (x ∷ updated) u h k = (h.0, entries_snoc updated u h.1 k)

  -- The subscription of a line that is not recorded yet has the quantity of the start.
  at_start :
      (c : ChangeContext) (s : OrderSubscription) (n : ℕ)
      → Inv c
      → last_quantity s.vendor (olds c.updated) ≡ none
      → lookup s.vendor c.quantities ≡ some n
      → lookup s.vendor q0 ≡ some n
  at_start c s n h fresh e =
      sym (h.back s.vendor) ∙ ap (λ o. or_else o (lookup s.vendor c.quantities)) fresh ∙ e

  -- An entry is added, and Adobe's quantity is set or was refused.
  set-Inv :
      (c : ChangeContext) (s : OrderSubscription) (n m : ℕ)
      → Inv c
      → lookup s.vendor q0 ≡ some n
      → Inv (add_updated s n m (set_renewal s.vendor m c))
  set-Inv c s n m h e = record {
    same_subs = h.same_subs;
    back = λ k.
        ap (λ o. or_else (last_quantity k o) (lookup k (insert s.vendor m c.quantities)))
          (olds_snoc c.updated (record { vendor = s.vendor; old_quantity = n; new_quantity = m }))
        ∙ ground (
          arith,
          last_quantity_snoc k s.vendor n (olds c.updated),
          lookup-insert s.vendor k m c.quantities,
          h.back k,
          e,
          eq_iff s.vendor k,
        );
    entries = entries_snoc c.updated _ h.entries e;
  }

  kept-Inv :
      (c : ChangeContext) (s : OrderSubscription) (n m : ℕ)
      → Inv c
      → lookup s.vendor q0 ≡ some n
      → Inv (add_updated s n m c)
  kept-Inv c s n m h e = record {
    same_subs = h.same_subs;
    back = λ k.
        ap (λ o. or_else (last_quantity k o) (lookup k c.quantities))
          (olds_snoc c.updated (record { vendor = s.vendor; old_quantity = n; new_quantity = m }))
        ∙ ground (
          arith,
          last_quantity_snoc k s.vendor n (olds c.updated),
          h.back k,
          e,
          eq_iff s.vendor k,
        );
    entries = entries_snoc c.updated _ h.entries e;
  }

  -- One line keeps the invariant.
  record Kept (line : Line) (c c2 : ChangeContext) : Type 0 where
    inv : Inv c2
    growth : Grown line c c2

  added-Grown :
      (line : Line) (c : ChangeContext) (s : OrderSubscription) (n m : ℕ) (c2 : ChangeContext)
      → find subs line ≡ some s
      → c2.updated
        ≡ c.updated ++ record { vendor = s.vendor; old_quantity = n; new_quantity = m } ∷ []
      → Grown line c c2
  added-Grown line c s n m c2 f e = grown s n f (ap olds e ∙ olds_snoc c.updated _)

  answered-Kept :
      (outside : Outside) (line : Line) (c : ChangeContext) (s : OrderSubscription) (n : ℕ)
      (r : Option Exception)
      → Inv c
      → find subs line ≡ some s
      → lookup s.vendor q0 ≡ some n
      → Kept line c (answered outside line s n c r).0
  answered-Kept outside line c s n none h f e = record {
    inv = set-Inv c s n line.quantity h e;
    growth = added-Grown line c s n line.quantity _ f refl;
  }
  answered-Kept outside line c s n (some (adobe_api code message details)) h f e =
      by_test (is_allowed code c.adobe_new_order line n)
    where
      by_test :
          (b : Bool)
          → Kept line c (
              if b
              then add_updated s n line.quantity c
              else refuse_update s (adobe_api code message details) c)
      by_test true = record {
        inv = kept-Inv c s n line.quantity h e;
        growth = added-Grown line c s n line.quantity _ f refl;
      }
      by_test false = record {
        inv = record { same_subs = h.same_subs; back = h.back; entries = h.entries };
        growth = same refl;
      }
  answered-Kept outside line c s n (some e) h f k = record { inv = h; growth = same refl }

  update_line-Kept :
      (outside : Outside) (line : Line) (c : ChangeContext)
      → Inv c
      → Fresh c line
      → Kept line c (update_line outside line c).0
  unfolding update_line
  update_line-Kept outside line c h fresh =
      by_subscription (find c.order_subscriptions line) (ap (λ l. find l line) (sym h.same_subs))
    where
      by_quantity :
          (s : OrderSubscription) (found : Option ℕ)
          → find subs line ≡ some s
          → lookup s.vendor c.quantities ≡ found
          → Kept line c (with_subscription outside line s c found).0
      by_quantity s none f e = record { inv = h; growth = same refl }
      by_quantity s (some n) f e = elim (Bool-cases (eqb n line.quantity)) [
        | inl b ↦ rw b (record { inv = h; growth = same refl })
        | inr b ↦ rw b (
            answered-Kept outside line c s n (outside.refusal s.vendor line.quantity) h f
              (at_start c s n h (fresh s f) e))
      ]

      by_subscription :
          (found : Option OrderSubscription)
          → find subs line ≡ found
          → Kept line c (for_subscription outside line c found).0
      by_subscription none f = record { inv = h; growth = same refl }
      by_subscription (some s) f = by_quantity s (lookup s.vendor c.quantities) f refl

  -- The other lines stay fresh.
  Grown-Fresh :
      (line l : Line) (c c2 : ChangeContext)
      → ((s s2 : OrderSubscription)
          → find subs line ≡ some s
          → find subs l ≡ some s2
          → s.vendor == s2.vendor ≡ false)
      → Grown line c c2
      → Fresh c l
      → Fresh c2 l
  Grown-Fresh line l c c2 d (same e) h s f = ap (last_quantity s.vendor) e ∙ h s f
  Grown-Fresh line l c c2 d (grown s1 n f1 e) h s f =
      ap (last_quantity s.vendor) e
      ∙ last_quantity_snoc s.vendor s1.vendor n (olds c.updated)
      ∙ rw (d s1 s f1 f) (h s f)

  Grown-All :
      (line : Line) (lines : List Line) (c c2 : ChangeContext)
      → All
          (λ l.
            (s s2 : OrderSubscription)
            → find subs line ≡ some s
            → find subs l ≡ some s2
            → s.vendor == s2.vendor ≡ false)
          lines
      → Grown line c c2
      → All (Fresh c) lines
      → All (Fresh c2) lines
  Grown-All line [] c c2 d g h = tt
  Grown-All line (l ∷ lines) c c2 d g h =
      (Grown-Fresh line l c c2 d.0 g h.0, Grown-All line lines c c2 d.1 g h.1)

  pub update_lines-Inv :
      (outside : Outside) (lines : List Line) (c : ChangeContext)
      → AreDistinct subs lines
      → All (Fresh c) lines
      → Inv c
      → Inv (update_lines outside lines c).0
  update_lines-Inv outside [] c d f h = h
  update_lines-Inv outside (line ∷ lines) c d f h =
      by_run (update_line outside line c)
        (λ c2 g. update_lines-Inv outside lines c2 d.1 (Grown-All line lines c c2 d.0 g f.1))
        (update_line-Kept outside line c h f.0)
    where
      by_run :
          (r : Run)
          → ((c2 : ChangeContext)
              → Grown line c c2
              → Inv c2
              → Inv (update_lines outside lines c2).0)
          → Kept line c r.0
          → Inv (go_on outside (update_lines outside lines) r).0
      by_run (c2, none) ih k = ih c2 k.growth k.inv
      by_run (c2, some e) ih k = k.inv
