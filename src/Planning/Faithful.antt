-- ===== src/Planning/Faithful.antt =====
-- When nothing blocks an adopt whose template has been rendered.
use unraid.Base.{refl}
use unraid.Inspect.Ordered.{IsSorted-if}
use unraid.Spec.Parse.Ordered.{parse_command-IsOrdered}
use unraid.Spec.Diff.Gate.{diff-Agrees}
use unraid.Spec.Parse.{parse_command}
use unraid.Spec.Diff.Entries.{AllIntended}
use unraid.Map.Laws.{IsSorted-insert, IsSorted-retain}
use unraid.Spec.Agrees.{Agrees, IsOrdered}
use unraid.Planning.Adopting.{Facet}
use unraid.Map.{insert, contains_key, IsSorted, Set, Map}
use unraid.Text.{text_eq, Text}
use unraid.Spec.Diff.{diff, DiffMode, Delta, Masks}
use unraid.Planning.Fidelity.{
  in_spec, not_expressed, unparsed, is_intended, FidelityDelta, fill, rendered_spec,
  with_daemon_opts, fidelity,
}
use unraid.Spec.{default_log_driver, RunSpec, without_baked_env}
use unraid.Base.{
  ◌++◌, Result-cases, Bool-cases, if◌then◌else◌, ◌↔◌, All, ◌≡◌, map, List, ok, true, [], ◌∷◌, inl,
  inr,
}
use mathlib.Core.Path.{subst}
use unraid.Order.{list_ord, nat_ord}

abbrev pub NoneBlocks : List FidelityDelta → Type 0
NoneBlocks ds = All (λ d. is_intended d ≡ true) ds

-- What a faithful rendering is: the template expresses all of the container, the rendered command
-- parses, and what it says agrees with the target.
pub record Faithful (target : RunSpec) (facets : List Facet) (baked : Set Text)
    (daemon : Map Text Text) (rendered : Text) (mode : DiffMode) : Type 0 where
  pub expressed : facets ≡ []
  pub got : RunSpec
  pub parsed : rendered_spec rendered baked daemon ≡ ok got
  pub agrees : Agrees target got mode

fill-IsSorted : (opts more : Map Text Text) → IsSorted opts → IsSorted (fill opts more)
unfolding fill
fill-IsSorted opts [] h = h
fill-IsSorted opts ((k, v) ∷ more) h =
    fill-IsSorted (if contains_key opts k then opts else insert k v opts) more
      (IsSorted-if (contains_key opts k) opts (insert k v opts) h (IsSorted-insert k v opts h))

with_daemon_opts-IsOrdered :
    (daemon : Map Text Text) (s : RunSpec) → IsOrdered s → IsOrdered (with_daemon_opts daemon s)
unfolding with_daemon_opts
with_daemon_opts-IsOrdered daemon s h =
    elim (Bool-cases (text_eq s.log_driver default_log_driver)) [
      | inl e ↦ rw e (record {
        ports = h.ports;
        env = h.env;
        mounts = h.mounts;
        tmpfs = h.tmpfs;
        log_opts = fill-IsSorted s.log_opts daemon h.log_opts;
        labels = h.labels;
      })
      | inr e ↦ rw e h
    ]

without_baked_env-IsOrdered :
    (s : RunSpec) (baked : Set Text) → IsOrdered s → IsOrdered (without_baked_env s baked)
unfolding without_baked_env
without_baked_env-IsOrdered s baked h = record {
  ports = h.ports;
  env = IsSorted-retain _ s.env h.env;
  mounts = h.mounts;
  tmpfs = h.tmpfs;
  log_opts = h.log_opts;
  labels = h.labels;
}

rendered_spec-IsOrdered :
    (rendered : Text) (baked : Set Text) (daemon : Map Text Text) (got : RunSpec)
    → rendered_spec rendered baked daemon ≡ ok got
    → IsOrdered got
unfolding rendered_spec
rendered_spec-IsOrdered rendered baked daemon got h = elim (Result-cases (parse_command rendered)) [
  | inl (s, e) ↦
      let same : ok (with_daemon_opts daemon (without_baked_env s baked)) ≡ ok got = rw e at h in
      subst IsOrdered (cc same) (
        with_daemon_opts-IsOrdered daemon (without_baked_env s baked)
          (without_baked_env-IsOrdered s baked (parse_command-IsOrdered rendered s e)))
  | inr (m, e) ↦ absurd (cc (rw e at h))
]

NoneBlocks-specs : (ds : List Delta) → NoneBlocks (map in_spec ds) ↔ AllIntended ds
NoneBlocks-specs [] = (λ h. h, λ h. h)
NoneBlocks-specs (d ∷ ds) =
    let (to, from) = NoneBlocks-specs ds in (λ h. (h.0, to h.1), λ h. (h.0, from h.1))

NoneBlocks-facets :
    (facets : List Facet) (ds : List FidelityDelta)
    → NoneBlocks (map not_expressed facets ++ ds) ↔ ((facets ≡ []) × NoneBlocks ds)
NoneBlocks-facets [] ds = (λ h. (refl, h), λ h. h.1)
NoneBlocks-facets (f ∷ fs) ds = (λ h. absurd (cc (h.0)), λ h. absurd (cc (h.0)))

-- Nothing blocks the adopt exactly when the rendering is faithful.
pub fidelity-Faithful :
    (r : Masks) (target : RunSpec) (facets : List Facet) (baked : Set Text) (daemon : Map Text Text)
    (rendered : Text) (mode : DiffMode)
    → IsOrdered target
    → NoneBlocks (fidelity r target facets baked daemon rendered mode).1
      ↔ Faithful target facets baked daemon rendered mode
unfolding fidelity
fidelity-Faithful r target facets baked daemon rendered mode o =
    elim (Result-cases (rendered_spec rendered baked daemon)) [
      | inr (e, k) ↦ (
        λ h.
            let none_blocks : NoneBlocks (map not_expressed facets ++ unparsed e ∷ []) =
              rw k at h in
            let (_, stop) = (NoneBlocks-facets facets (unparsed e ∷ [])).0 none_blocks in
            absurd (cc (stop.0)),
        λ f. absurd (cc (k, f.parsed)),
      )
      | inl (got, k) ↦
          let t = rendered_spec-IsOrdered rendered baked daemon got k in
          let gate = diff-Agrees r target got mode o t in
          let deltas = map in_spec (diff r target got mode) in
          (
            λ h.
                let none_blocks : NoneBlocks (map not_expressed facets ++ deltas) = rw k at h in
                let (all_expressed, intended) = (NoneBlocks-facets facets deltas).0 none_blocks in
                record {
                  expressed = all_expressed;
                  got = got;
                  parsed = k;
                  agrees = gate.0 ((NoneBlocks-specs (diff r target got mode)).0 intended);
                },
            λ f.
                let same : f.got ≡ got = cc (k, f.parsed) in
                let agrees : Agrees target got mode =
                  subst (λ g. Agrees target g mode) same f.agrees in
                rw k (
                  (NoneBlocks-facets facets deltas).1
                    (f.expressed, (NoneBlocks-specs (diff r target got mode)).1 (gate.1 agrees))),
          )
    ]
