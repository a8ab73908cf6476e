-- ===== src/Purge/Sweep/Orphans.antt =====
-- sweep_orphans of src/retention.rs and the versions that feeds hold.
use yanuget.Prelude.{
  ℕ, Bool, true, false, not, Option, none, some, List, [], ◌∷◌, any, retain, length, ◌≡◌, refl,
  any-retain_kept, arith,
}
use yanuget.Text.Equal.{text_eq_iff}
use yanuget.Store.{Key, same_key, Membership, PackageRow, Store, Fate}
use yanuget.Store.Triple.{
  Triple, pure_rule, call_rule, call_keeps, if_rule, >>=_rule, consequence, store_of,
}
use yanuget.Store.Calls.{feed_count, package_data_exists, orphaned_versions}
use yanuget.Purge.Keeps.{IsKeptBy, purge_global_data_keeps}
use yanuget.Purge.{purge_global_data}
use yanuget.Purge.Global.{same_key_left}
use yanuget.Purge.Sweep.{
  is_zero, unwrap_or, count_done, is_still_orphaned, sweep_orphan, sweep_listed, sweep_orphans,
}
use yanuget.Purge.Sweep.Rules.{Either, caught_rule, caught_keeps, fold_rule}

-- some feed holds the version, and its row and its payload are there
abbrev pub IsServed : Key → Store → Type 0
IsServed k s =
    (any (λ m. same_key m.key k) s.members ≡ true)
    × (any (λ p. same_key p.key k) s.packages ≡ true)
    × (any (λ q. same_key q k) s.payloads ≡ true)

-- the purge of a version keeps what another has
module _ (k key : Key) (different : same_key key k ≡ false) where
  another : (q : Key) → same_key q k ≡ true → not (same_key q key) ≡ true
  another q h = ground (arith, h, different, same_key_left q k key)

  IsServed-IsKeptBy : IsKeptBy key (IsServed k)
  IsServed-IsKeptBy = record {
    symbol_file = λ n s h. h;
    symbol_rows = λ s h. h;
    blob = λ sha s h. h;
    payload = λ s h. (h.0, h.1, any-retain_kept _ _ s.payloads another h.2);
    rows = λ s h. (
      any-retain_kept _ _ s.members (λ m. another m.key) h.0,
      any-retain_kept _ _ s.packages (λ p. another p.key) h.1,
      h.2,
    );
  }

  purge_global_data-IsServed :
      Triple (IsServed k) (purge_global_data key) (λ _. IsServed k) (IsServed k)
  purge_global_data-IsServed = purge_global_data_keeps key (IsServed k) IsServed-IsKeptBy

pub same_key_right : (a b c : Key) → same_key a b ≡ true → same_key c b ≡ true → same_key a c ≡ true
same_key_right a b c h k = ground (
  arith,
  h,
  k,
  text_eq_iff a.id b.id,
  text_eq_iff a.version b.version,
  text_eq_iff c.id b.id,
  text_eq_iff c.version b.version,
  text_eq_iff a.id c.id,
  text_eq_iff a.version c.version,
)

-- a version that no feed holds is not the held one
unheld-different :
    (k key : Key) (ms : List Membership)
    → any (λ m. same_key m.key k) ms ≡ true
    → length (retain (λ m. same_key m.key key) ms) ≡ 0
    → same_key key k ≡ false
unheld-different k key [] h e = cc
unheld-different k key (m ∷ ms) h e =
    ground (arith, h, e, unheld-different k key ms, same_key_right m.key k key)

module _ (k : Key) where
  abbrev Counted : Key → Option ℕ → Store → Type 0
  Counted key feeds s = IsServed k s × (is_zero feeds ≡ true → same_key key k ≡ false)

  Counted-of :
      (key : Key) (feeds : Option ℕ) (s : Store)
      → Either
          (λ n t. IsServed k t × (n ≡ length (retain (λ m. same_key m.key key) t.members)))
          (IsServed k)
          feeds
          s
      → Counted key feeds s
  Counted-of key none s h = (h, λ e. cc)
  Counted-of key (some n) s h =
      (h.0, λ e. unheld-different k key s.members h.0.0 (ground (arith, e, h.1)))

  Decided : Key → Bool → Store → Type 0
  Decided key still s = IsServed k s × (still ≡ true → same_key key k ≡ false)

  exists-Counted :
      (key : Key) (feeds : Option ℕ)
      → Triple
          (Counted key feeds)
          (package_data_exists key)
          (λ exists. Counted key feeds)
          (Counted key feeds)
  unfolding package_data_exists
  exists-Counted key feeds = call_keeps _ (λ s h. h)

  still-Decided :
      (key : Key) → Triple (IsServed k) (is_still_orphaned key) (Decided key) (IsServed k)
  unfolding is_still_orphaned feed_count Decided
  still-Decided key =
      >>=_rule
        (consequence (λ s h. h) (Counted-of key) (λ s h. h)
          (caught_rule (call_rule _ (λ s h. (h, refl)) (λ s h. (h, h)))))
        λ feeds.
          if_rule (is_zero feeds)
            (λ free.
              >>=_rule (caught_keeps (exists-Counted key feeds))
                λ exists. pure_rule (unwrap_or false exists) (λ s h. (h.0, λ e. h.1 free)))
            (λ used. pure_rule false (λ s h. (h.0, λ e. cc)))

  purged-IsServed :
      (key : Key) (still : Bool)
      → still ≡ true
      → Triple (Decided key still) (purge_global_data key) (λ done. IsServed k) (IsServed k)
  unfolding Decided
  purged-IsServed key still orphaned = record {
    ends = λ fates s w h. (purge_global_data-IsServed k key (h.1 orphaned)).ends fates s w h.0;
  }

  orphan-IsServed :
      (n : ℕ) (row : PackageRow)
      → Triple (IsServed k) (sweep_orphan n row) (λ m. IsServed k) (IsServed k)
  unfolding sweep_orphan
  orphan-IsServed n row = >>=_rule (still-Decided row.key) λ still.
      if_rule still
        (λ orphaned.
          >>=_rule (caught_keeps (purged-IsServed row.key still orphaned))
            λ done. pure_rule (count_done n done) (λ s h. h))
        (λ held. unfold Decided in pure_rule n (λ s h. h.0))

  listed-IsServed :
      (listed : Option (List PackageRow))
      → Triple (IsServed k) (sweep_listed listed) (λ m. IsServed k) (IsServed k)
  listed-IsServed none = pure_rule 0 (λ s h. h)
  listed-IsServed (some rows) =
      fold_rule (λ (todo : List PackageRow). IsServed k) 0 rows
        (λ n row rest. orphan-IsServed n row)

  sweep-IsServed : Triple (IsServed k) sweep_orphans (λ m. IsServed k) (IsServed k)
  unfolding sweep_orphans orphaned_versions
  sweep-IsServed = >>=_rule (caught_keeps (call_keeps _ (λ s h. h))) listed-IsServed

-- A version that some feed holds, whose row and payload are there, is still held, with its row and its
-- payload, after a sweep of orphans, whichever calls fail.
pub sweep_orphans-IsServed :
    (k : Key) (fates : List Fate) (s : Store)
    → IsServed k s
    → IsServed k (sweep_orphans fates s).store
sweep_orphans-IsServed k fates s h = store_of (sweep-IsServed k) fates s h
