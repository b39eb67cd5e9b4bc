-- ===== src/Api/Advice.antt =====
-- api/main.py, `recommendations` with `_rightsize`: the cards that the sums of Prometheus make. The answers
-- to the queries are arguments. `fmt` and `number` are the texts of whole numbers and of floats.
use Prim.Native.String.{◌++◌ as ◌+++◌}
use abb_accelerator_submissi.Prelude.{
  ◌*◌, Bool, true, false, not, ◌&&◌, Option, none, some, List, [], ◌∷◌, ◌++◌, map, String,
  if◌then◌else◌, Float, one, max, text_key, number_key, lookup, sort,
}
use abb_accelerator_submissi.Cases.{link_key, link_le, set_of}
use abb_accelerator_submissi.Api.Narrative.{Format, fmt_mem}
use abb_accelerator_submissi.Api.Metrics.{
  Series, Sums, Fairness, prom_map, add_to, nonzero, fairness,
}

pub data Resource : Type 0 where
  cpu memory : Resource

pub data Verb : Type 0 where
  reclaim resize : Verb

-- A card of `_rightsize`; `recommendations` adds the namespace.
pub record Card (R : Type 0) : Type 0 where
  pub verb : Verb
  pub namespace : Option String
  pub workload : String
  pub resource : Resource
  pub detail : String
  pub request : Option R
  pub limit : Option R
  pub p95 : R
  pub target : R

-- The answers to the six queries on one resource each, and to the three on stalls.
pub record Usage (R : Type 0) : Type 0 where
  pub cpu_req : Option (List (Series R))
  pub cpu_lim : Option (List (Series R))
  pub cpu_use : Option (List (Series R))
  pub mem_req : Option (List (Series R))
  pub mem_lim : Option (List (Series R))
  pub mem_use : Option (List (Series R))

pub record Stalls (R : Type 0) : Type 0 where
  pub io : Option (List (Series R))
  pub cpu : Option (List (Series R))
  pub memory : Option (List (Series R))

pub record Advice (R : Type 0) : Type 0 where
  pub right_sizing : List (Card R)
  pub fairness : List (Fairness R)
  pub available : Bool

-- `c["namespace"] = ns`, of the card if there is one.
abbrev pub card_list : {R : Type 0} → String → Option (Card R) → List (Card R)
card_list ns none = []
card_list ns (some card) = record card { namespace = some ns } ∷ []

-- `RECLAIM_FRAC` and `RESIZE_FRAC`, which the environment sets.
pub record Thresholds (R : Type 0) : Type 0 where
  pub reclaim_frac : R
  pub resize_frac : R

module _ {R : Type 0} ⦃f : Float R⦄ where
  -- `(c["verb"] != "resize", -(c.get("p95") or 0))`
  abbrev pub card_le : Card R → Card R → Bool
  card_le a b = elim a.verb [
    | Verb.resize ↦ elim b.verb [
      | Verb.resize ↦ not (f.lt (f.neg b.p95) (f.neg a.p95))
      | Verb.reclaim ↦ true
    ]
    | Verb.reclaim ↦ elim b.verb [
      | Verb.resize ↦ false
      | Verb.reclaim ↦ not (f.lt (f.neg b.p95) (f.neg a.p95))
    ]
  ]

  abbrev pub headroom : R
  headroom = f.decimal 13 1

  -- The least saving that is worth a card.
  abbrev pub min_save : Resource → R
  min_save Resource.cpu = f.decimal 5 2
  min_save Resource.memory = f.of_nat (64 * 1024 * 1024)

  abbrev pub target_of : R → R → R
  target_of req p95 = max (f.mul p95 headroom) (f.mul req (f.decimal 1 1))

module _ {R : Type 0} ⦃f : Float R⦄ (fmt : Format R) (number : R → String) where
  -- `_fmt_cpu`
  abbrev pub fmt_cpu : R → String
  fmt_cpu c =
      if f.lt c one
      then fmt.int (f.round (f.mul c (f.of_nat 1000)) 0) +++ "m"
      else number (f.round c 2) +++ " CPU"

  abbrev pub fmt_of : Resource → R → String
  fmt_of Resource.cpu = fmt_cpu
  fmt_of Resource.memory = fmt_mem fmt

  -- The card of a workload that asks for too much: it saves more than the least saving.
  unfoldable pub reclaim_card :
      Thresholds R → String → Option R → Option R → R → Resource → Option (Card R)
  reclaim_card cfg wl req lim p95 resource = elim (nonzero req) [
    | none ↦ none
    | some q ↦
        let target = target_of q p95 in
        let save = f.sub q target in
        if f.lt p95 (f.mul cfg.reclaim_frac q) && f.lt (min_save resource) save
        then some (record {
          verb = Verb.reclaim;
          namespace = none;
          workload = wl;
          resource = resource;
          detail =
              "requests "
              +++ (fmt_of resource q
                  +++ (", p95 "
                      +++ (fmt_of resource p95 +++ (" -> reclaim " +++ fmt_of resource save))));
          request = req;
          limit = lim;
          p95 = p95;
          target = f.round target 3;
        })
        else none
  ]

  -- The card of a workload that is near its limit.
  unfoldable pub resize_card :
      Thresholds R → String → Option R → Option R → R → Resource → Option (Card R)
  resize_card cfg wl req lim p95 resource = elim (nonzero lim) [
    | none ↦ none
    | some l ↦
        if f.lt (f.mul cfg.resize_frac l) p95
        then some (record {
          verb = Verb.resize;
          namespace = none;
          workload = wl;
          resource = resource;
          detail =
              "p95 "
              +++ (fmt_of resource p95
                  +++ (" near limit "
                      +++ (fmt_of resource l +++ " -> resize up (throttle/OOM risk)")));
          request = req;
          limit = lim;
          p95 = p95;
          target = f.round (f.mul l (f.decimal 15 1)) 3;
        })
        else none
  ]

  -- `_rightsize`
  unfoldable pub rightsize :
      Thresholds R → String → Option R → Option R → Option R → Resource → Option (Card R)
  unfolding reclaim_card resize_card
  rightsize cfg wl req lim none resource = none
  rightsize cfg wl req lim (some p95) resource = elim (reclaim_card cfg wl req lim p95 resource) [
    | some card ↦ some card
    | none ↦ resize_card cfg wl req lim p95 resource
  ]

  -- The cards of one workload: for its CPU, then for its memory.
  unfoldable pub cards_of : Thresholds R → Usage R → String × String → List (Card R)
  unfolding lookup rightsize
  cards_of cfg u k =
      card_list k.0 (
        rightsize cfg k.1 (lookup k (prom_map u.cpu_req)) (lookup k (prom_map u.cpu_lim))
          (lookup k (prom_map u.cpu_use)) Resource.cpu)
      ++ card_list k.0 (
          rightsize cfg k.1 (lookup k (prom_map u.mem_req)) (lookup k (prom_map u.mem_lim))
            (lookup k (prom_map u.mem_use)) Resource.memory)

  unfoldable pub all_cards : Thresholds R → Usage R → List (String × String) → List (Card R)
  unfolding cards_of
  all_cards cfg u [] = []
  all_cards cfg u (k ∷ ks) = cards_of cfg u k ++ all_cards cfg u ks

module _ {R : Type 0} ⦃f : Float R⦄ where
  -- The keys of the six dictionaries, sorted; `name` as in `prom_sums`.
  unfoldable pub all_keys : (Option (List (Series R)) → Sums R) → Usage R → List (String × String)
  unfolding set_of sort
  all_keys sums u = sort link_le (
      set_of (
        map (λ e. e.0) (sums u.cpu_req)
        ++ (map (λ e. e.0) (sums u.cpu_lim)
            ++ (map (λ e. e.0) (sums u.cpu_use)
                ++ (map (λ e. e.0) (sums u.mem_req)
                    ++ (map (λ e. e.0) (sums u.mem_lim) ++ map (λ e. e.0) (sums u.mem_use)))))))

  unfoldable pub add_all : Sums R → Sums R → Sums R
  unfolding add_to
  add_all stall [] = stall
  add_all stall ((k, v) ∷ sums) = add_all (add_to stall k v) sums

  -- The stall of each workload, of its disk, CPU and memory.
  unfoldable pub stalls : Stalls R → Sums R
  unfolding add_all
  stalls s = add_all (add_all (add_all [] (prom_map s.io)) (prom_map s.cpu)) (prom_map s.memory)

module _ {R : Type 0} ⦃f : Float R⦄ (fmt : Format R) (number : R → String) where
  -- `recommendations`: `available` is the `source`, and there is nothing without a reading.
  unfoldable pub recommendations : Thresholds R → Usage R → Stalls R → Advice R
  unfolding all_keys all_cards stalls fairness sort
  recommendations cfg u s = elim (all_keys prom_map u) [
    | [] ↦ record { right_sizing = []; fairness = []; available = false }
    | k ∷ ks ↦ record {
      right_sizing = sort card_le (all_cards fmt number cfg u (k ∷ ks));
      fairness = fairness (stalls s);
      available = true;
    }
  ]
