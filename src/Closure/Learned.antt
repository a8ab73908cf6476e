-- ===== src/Closure/Learned.antt =====
-- `resolve` of crates/yanuget-internalize/src/closure.rs and what the source told it.
use yanuget.Prelude.{
  ℕ, zero, suc, ◌≤◌, true, false, ◌&&◌, some, List, [], ◌∷◌, length, ◌≡◌, inl, inr, ap, ◌∙◌, subst,
  Bool-cases, All, All_mono, arith,
}
use yanuget.Prelude.Result.{Result, ok, err, ◌>>=◌, >>=-eq-ok, ok-injective, Result-cases}
use yanuget.Text.{text_eq, lower}
use yanuget.Text.Equal.{text_eq_iff}
use yanuget.Version.{version_eq}
use yanuget.Closure.{
  PackageInfo, DependencyRef, Edge, Known, dependencies_of, Need, versions_of, edges_from, need,
  fail,
}
use yanuget.Closure.Solver.{max_packages}
use yanuget.Closure.Sound.{AreMet}
use yanuget.Closure.Search.{is_out_of_fuel, IsFound}
use yanuget.Closure.Resolve.{
  Closure, solve, Source, ClosureError, upstream, bad_edge, too_many_lookups, unresolvable,
  nothing_known, new_edges, learn_versions, learn_edges, map_err, learn, resolve_from, resolve,
  max_lookups,
}
use yanuget.Closure.Solved.{infos, IsSolved, solve-IsSolved}

module _ {E : Type 0} (source : Source E) where
  -- edges that the source told of a package with the same key
  pub record IsTold (p : PackageInfo) (edges : List Edge) : Type 0 where
    pub asked : PackageInfo
    pub same_id : lower p.id ≡ lower asked.id
    pub same_version : version_eq p.version asked.version ≡ true
    pub refs : List DependencyRef
    pub answered : source.dependencies asked ≡ ok refs
    pub parsed : new_edges asked refs ≡ ok edges

  IsLearned : Known → Type 0
  IsLearned known =
      (p : PackageInfo) (edges : List Edge) → dependencies_of known p ≡ some edges → IsTold p edges

  learn_edges-IsLearned :
      (q : PackageInfo) (refs : List DependencyRef) (edges : List Edge) (known : Known)
      → source.dependencies q ≡ ok refs
      → new_edges q refs ≡ ok edges
      → IsLearned known
      → IsLearned (learn_edges q edges known)
  unfolding IsLearned
  learn_edges-IsLearned q refs edges known answered parsed h p told found =
      elim (Bool-cases (text_eq (lower p.id) (lower q.id) && version_eq p.version q.version)) [
        | inl same ↦
            let e : some edges ≡ some told = rw same at found in
            let e' : edges ≡ told = cc in
            record {
              asked = q;
              same_id = (text_eq_iff (lower p.id) (lower q.id)).0 (ground (arith, same));
              same_version = ground (arith, same);
              refs = refs;
              answered = answered;
              parsed = parsed ∙ ap (λ es. ok es) e';
            }
        | inr other ↦ h p told (rw other at found)
      ]

  map_err-ok :
      {F A : Type 0} (f : F → ClosureError E) (r : Result F A) (a : A)
      → map_err source f r ≡ ok a
      → r ≡ ok a
  map_err-ok f (ok b) a h = cc
  map_err-ok f (err e) a h = cc

  learn-IsLearned :
      (what : Need) (known more : Known)
      → learn source what known ≡ ok more
      → IsLearned known
      → IsLearned more
  unfolding learn
  learn-IsLearned (versions_of id) known more told h =
      let (vs, answered, learned) =
        >>=-eq-ok (map_err source upstream (source.versions id))
          (λ vs. ok (learn_versions id vs known)) told in
      let known_more : learn_versions id vs known ≡ more = ok-injective learned in
      subst IsLearned known_more (unfold IsLearned in λ p edges found. h p edges found)
  learn-IsLearned (edges_from q) known more told h =
      let (refs, answered, rest) =
        >>=-eq-ok (map_err source upstream (source.dependencies q))
          (λ refs.
            map_err source bad_edge (new_edges q refs) >>= λ edges. ok (learn_edges q edges known))
          told in
      let (edges, parsed, learned) =
        >>=-eq-ok (map_err source bad_edge (new_edges q refs))
          (λ edges. ok (learn_edges q edges known)) rest in
      subst IsLearned (ok-injective learned) (
        learn_edges-IsLearned q refs edges known (map_err-ok upstream _ _ answered)
          (map_err-ok bad_edge _ _ parsed) h)

  -- the root and, up to the limit, packages all of whose edges, as the source told them, are met
  pub record IsResolved (root : PackageInfo) (chosen : List PackageInfo) : Type 0 where
    pub more : List PackageInfo
    pub root_first : chosen ≡ root ∷ more
    pub bounded : length chosen ≤ max_packages
    pub met : All (λ p. (edges : List Edge) × IsTold p edges × AreMet chosen edges) chosen

  found-IsResolved :
      (known : Known) (root : PackageInfo) (chosen : List PackageInfo)
      → IsLearned known
      → IsFound known (root ∷ []) chosen
      → IsResolved root chosen
  unfolding IsLearned
  found-IsResolved known root chosen l h = record {
    more = h.more;
    root_first = h.grown;
    bounded = h.bounded;
    met = All_mono _ _ chosen (λ p w. (w.0, l p w.0 w.1, w.2)) h.closed;
  }

  -- what the loop answers
  abbrev pub IsEnd : PackageInfo → Result (ClosureError E) Closure → Type 0
  IsEnd root (ok closure) = IsResolved root (infos closure.packages)
  IsEnd root (err (upstream e)) = Unit
  IsEnd root (err (bad_edge e)) = Unit
  IsEnd root (err (unresolvable why)) = is_out_of_fuel (fail why) ≡ false
  IsEnd root (err too_many_lookups) = Unit

  err_as :
      {e e' : ClosureError E}
      → ◌≡◌ {A = Result (ClosureError E) Known} (err e) (err e')
      → ◌≡◌ {A = Result (ClosureError E) Closure} (err e) (err e')
  err_as h = cc

  learn-IsEnd :
      (root : PackageInfo) (what : Need) (known : Known) (e : ClosureError E)
      → learn source what known ≡ err e
      → IsEnd root (err e)
  unfolding learn
  learn-IsEnd root (versions_of id) known e h = elim (Result-cases (source.versions id)) [
    | inl (vs, told) ↦ let found : ok (learn_versions id vs known) ≡ err e = rw told at h in cc
    | inr (x, refused) ↦
        let same : err (upstream x) ≡ err e = rw refused at h in subst (IsEnd root) (err_as same) tt
  ]
  learn-IsEnd root (edges_from q) known e h = elim (Result-cases (source.dependencies q)) [
    | inr (x, refused) ↦
        let same : err (upstream x) ≡ err e = rw refused at h in subst (IsEnd root) (err_as same) tt
    | inl (refs, told) ↦ elim (Result-cases (new_edges q refs)) [
      | inl (edges, parsed) ↦
          let found : ok (learn_edges q edges known) ≡ err e = rw (told, parsed) at h in cc
      | inr (x, bad) ↦
          let same : err (bad_edge x) ≡ err e = rw (told, bad) at h in
          subst (IsEnd root) (err_as same) tt
    ]
  ]

  resolve_from-IsEnd :
      (n : ℕ) (root : PackageInfo) (known : Known)
      → IsLearned known
      → IsEnd root (resolve_from source n root known)
  unfolding resolve_from
  resolve_from-IsEnd zero root known l = tt
  resolve_from-IsEnd (suc n) root known l = elim (Result-cases (solve known root)) [
    | inl (closure, solved_) ↦
        rw (resolve_from, solved_)
          (found-IsResolved known root (infos closure.packages) l
            (subst (IsSolved known root) solved_ (solve-IsSolved known root)))
    | inr (need what, stopped_) ↦
        rw (resolve_from, stopped_)
          (elim (Result-cases (learn source what known)) [
            | inl (more, told) ↦
                rw told (resolve_from-IsEnd n root more (learn-IsLearned what known more told l))
            | inr (e, refused) ↦ rw refused (learn-IsEnd root what known e refused)
          ])
    | inr (fail why, stopped_) ↦
        rw (resolve_from, stopped_)
          (subst (IsSolved known root) stopped_ (solve-IsSolved known root))
  ]

-- `resolve` ends in a closure or an error. A closure starts with the root, has at most 500 packages, and
-- holds, for each edge that the source tells of one of its packages but those on the package chocolatey
-- itself, a package of that id whose version is in the range. No error comes from the model's fuel.
pub resolve-IsEnd :
    {E : Type 0} (source : Source E) (root : PackageInfo) → IsEnd source root (resolve source root)
unfolding resolve
resolve-IsEnd source root =
    resolve_from-IsEnd source max_lookups root nothing_known
      (unfold IsLearned in λ p edges found. cc)
