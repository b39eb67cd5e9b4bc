-- ===== src/Api/Cards.antt =====
-- The cards of `recommendations`: why a workload has one, and their order.
use mathlib.Core.Option.{some-injective}
use abb_accelerator_submissi.Prelude.{
  ◌≡◌, refl, subst, ◌∙◌, inl, inr, true, false, ◌&&◌, Option, none, some, List, [], ◌∷◌, String,
  arith, Bool-cases, Option-cases, List-cases, Float, IsOrdered, All, All-append, lookup, sort-All,
  IsSorted, sort-IsSorted, not-lt_total, not-lt_trans,
}
use abb_accelerator_submissi.Cases.{link_key}
use abb_accelerator_submissi.Api.Narrative.{Format}
use abb_accelerator_submissi.Api.Metrics.{Sums, nonzero, prom_map}
use abb_accelerator_submissi.Api.Advice.{
  Resource, Verb, Card, Usage, Stalls, Thresholds, min_save, target_of, reclaim_card, resize_card,
  rightsize, card_list, cards_of, all_cards, card_le, all_keys, recommendations,
}

module _ {R : Type 0} ⦃f : Float R⦄ where
  -- Why `_rightsize` gives a card, from the request, the limit and the usage.
  pub data IsEarned (cfg : Thresholds R) (req lim : Option R) (resource : Resource) (p95 : R)
      : Verb → Type 0 where
    idle :
        (q : R)
        → req ≡ some q
        → f.lt p95 (f.mul cfg.reclaim_frac q) ≡ true
        → f.lt (min_save resource) (f.sub q (target_of q p95)) ≡ true
        → IsEarned cfg req lim resource p95 Verb.reclaim
    full :
        (l : R)
        → lim ≡ some l
        → f.lt (f.mul cfg.resize_frac l) p95 ≡ true
        → IsEarned cfg req lim resource p95 Verb.resize

  -- The sums of a resource.
  abbrev pub requests : Usage R → Resource → Sums R
  requests u Resource.cpu = prom_map u.cpu_req
  requests u Resource.memory = prom_map u.mem_req

  abbrev pub limits : Usage R → Resource → Sums R
  limits u Resource.cpu = prom_map u.cpu_lim
  limits u Resource.memory = prom_map u.mem_lim

  abbrev pub usages : Usage R → Resource → Sums R
  usages u Resource.cpu = prom_map u.cpu_use
  usages u Resource.memory = prom_map u.mem_use

  -- The card is of a workload whose sums earn it.
  pub record IsDue (cfg : Thresholds R) (u : Usage R) (c : Card R) : Type 0 where
    pub namespace : String
    pub named : c.namespace ≡ some namespace
    pub used : lookup (namespace, c.workload) (usages u c.resource) ≡ some c.p95
    pub earned :
        IsEarned cfg
          (lookup (namespace, c.workload) (requests u c.resource))
          (lookup (namespace, c.workload) (limits u c.resource))
          c.resource
          c.p95
          c.verb

  nonzero-some : (o : Option R) (x : R) → nonzero o ≡ some x → o ≡ some x
  nonzero-some none x h = absurd (cc)
  nonzero-some (some y) x h = ground arith

  -- What one card of `_rightsize` says.
  record Fits (cfg : Thresholds R) (wl : String) (req lim : Option R) (use95 : Option R)
      (resource : Resource) (c : Card R) : Type 0 where
    of_workload : c.workload ≡ wl
    of_resource : c.resource ≡ resource
    of_usage : use95 ≡ some c.p95
    earned : IsEarned cfg req lim resource c.p95 c.verb

module _ {R : Type 0} ⦃f : Float R⦄ (fmt : Format R) (number : R → String)
    (cfg : Thresholds R) where
  reclaim_card-Fits :
      (wl : String) (req lim : Option R) (p95 : R) (resource : Resource) (c : Card R)
      → reclaim_card fmt number cfg wl req lim p95 resource ≡ some c
      → Fits cfg wl req lim (some p95) resource c
  unfolding reclaim_card
  reclaim_card-Fits wl req lim p95 resource c h = elim (Option-cases (nonzero req)) [
    | inl e ↦ absurd (cc (rw (e, reclaim_card) at h))
    | inr (q, e) ↦
        elim (Bool-cases (
          f.lt p95 (f.mul cfg.reclaim_frac q)
          && f.lt (min_save resource) (f.sub q (target_of q p95)))) [
            | inr little ↦ absurd (cc (rw (e, little, reclaim_card) at h))
            | inl much ↦
                subst (Fits cfg wl req lim (some p95) resource)
                  (some-injective _ _ (rw (e, much, reclaim_card) at h))
                  (record {
                    of_workload = refl;
                    of_resource = refl;
                    of_usage = refl;
                    earned = idle q (nonzero-some req q e) (ground arith) (ground arith);
                  })
          ]
  ]

  resize_card-Fits :
      (wl : String) (req lim : Option R) (p95 : R) (resource : Resource) (c : Card R)
      → resize_card fmt number cfg wl req lim p95 resource ≡ some c
      → Fits cfg wl req lim (some p95) resource c
  unfolding resize_card
  resize_card-Fits wl req lim p95 resource c h = elim (Option-cases (nonzero lim)) [
    | inl e ↦ absurd (cc (rw (e, resize_card) at h))
    | inr (l, e) ↦ elim (Bool-cases (f.lt (f.mul cfg.resize_frac l) p95)) [
      | inr little ↦ absurd (cc (rw (e, little, resize_card) at h))
      | inl much ↦
          subst (Fits cfg wl req lim (some p95) resource)
            (some-injective _ _ (rw (e, much, resize_card) at h))
            (record {
              of_workload = refl;
              of_resource = refl;
              of_usage = refl;
              earned = full l (nonzero-some lim l e) much;
            })
    ]
  ]

  rightsize-Fits :
      (wl : String) (req lim use95 : Option R) (resource : Resource) (c : Card R)
      → rightsize fmt number cfg wl req lim use95 resource ≡ some c
      → Fits cfg wl req lim use95 resource c
  unfolding rightsize
  rightsize-Fits wl req lim none resource c h = absurd (cc)
  rightsize-Fits wl req lim (some p95) resource c h =
      elim (Option-cases (reclaim_card fmt number cfg wl req lim p95 resource)) [
        | inl e ↦ resize_card-Fits wl req lim p95 resource c (rw (e, rightsize) at h)
        | inr (d, e) ↦ reclaim_card-Fits wl req lim p95 resource c (e ∙ rw (e, rightsize) at h)
      ]

  -- the cards of one resource of a workload
  card_list-IsDue :
      (u : Usage R) (k : String × String) (resource : Resource) (o : Option (Card R))
      → ((c : Card R)
          → o ≡ some c
          → Fits cfg k.1
              (lookup k (requests u resource))
              (lookup k (limits u resource))
              (lookup k (usages u resource))
              resource
              c)
      → All (IsDue cfg u) (card_list k.0 o)
  card_list-IsDue u k resource none h = tt
  card_list-IsDue u k resource (some c) h =
      let fits = h c refl in
      (
        record {
          namespace = k.0;
          named = refl;
          used = rw (fits.of_workload, fits.of_resource) fits.of_usage;
          earned = rw (fits.of_workload, fits.of_resource) fits.earned;
        },
        tt,
      )

  cards_of-IsDue :
      (u : Usage R) (k : String × String) → All (IsDue cfg u) (cards_of fmt number cfg u k)
  unfolding cards_of
  cards_of-IsDue u k =
      All-append (IsDue cfg u) (card_list k.0 _) _
        (card_list-IsDue u k Resource.cpu _ (rightsize-Fits k.1 _ _ _ Resource.cpu))
        (card_list-IsDue u k Resource.memory _ (rightsize-Fits k.1 _ _ _ Resource.memory))

  all_cards-IsDue :
      (u : Usage R) (ks : List (String × String))
      → All (IsDue cfg u) (all_cards fmt number cfg u ks)
  unfolding all_cards
  all_cards-IsDue u [] = tt
  all_cards-IsDue u (k ∷ ks) =
      All-append (IsDue cfg u) (cards_of fmt number cfg u k) _ (cards_of-IsDue u k)
        (all_cards-IsDue u ks)

  module _ (laws : IsOrdered R) where
    card_le_total : (a b : Card R) → card_le a b ≡ false → card_le b a ≡ true
    card_le_total a b h = ground (arith, not-lt_total laws (f.neg a.p95) (f.neg b.p95))

    card_le_trans : (a b c : Card R) → card_le a b ≡ true → card_le b c ≡ true → card_le a c ≡ true
    card_le_trans a b c h k =
        ground (arith, not-lt_trans laws (f.neg a.p95) (f.neg b.p95) (f.neg c.p95))

    -- Every card of the recommendations is of a workload whose sums earn it: to reclaim, the usage is below the
    -- fraction of the request, and the saving exceeds the least one; to resize, the usage is above the fraction of the
    -- limit. The cards to resize stand first, and those of one kind in the order of falling usage.
    pub recommendations-IsDue :
        (u : Usage R) (s : Stalls R)
        → All (IsDue cfg u) (recommendations fmt number cfg u s).right_sizing
          × IsSorted card_le (recommendations fmt number cfg u s).right_sizing
    unfolding recommendations
    recommendations-IsDue u s = elim (List-cases (all_keys prom_map u)) [
      | inl e ↦ rw (e, recommendations) (tt, tt)
      | inr (k, ks, e) ↦
          rw (e, recommendations)
            (
              sort-All card_le (IsDue cfg u) (all_cards fmt number cfg u (k ∷ ks))
                  (all_cards-IsDue u (k ∷ ks)),
              sort-IsSorted card_le card_le_total card_le_trans
                  (all_cards fmt number cfg u (k ∷ ks)),
            )
    ]
