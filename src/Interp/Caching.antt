-- ===== src/Interp/Caching.antt =====
-- vm/vm.c: what the inline caches of calls give.
use mathlib.Core.Path.{ap₂, subst}
use kek_on_rails.Base.{
  ℕ, ◌≡◌, sym, ap, ◌∙◌, inl, inr, Bool, Option, none, some, List, ◌==◌, if◌then◌else◌, Bool-cases,
  ==→eq, refl, Option-cases, eq→==,
}
use kek_on_rails.Classes.Names.{some_same, ok_same}
use kek_on_rails.Classes.Table.{Class}
use kek_on_rails.Interp.Sends.{look_up, update_cache, Caches, hit, resolve, fill, hit_or}
use kek_on_rails.Loader.Records.{Method}
use kek_on_rails.Outcome.{Outcome, ok, stop, ◌>>=◌}

-- What a call site always asks for.
pub record Site : Type 0 where
  pub name : List ℕ
  pub static_call : Bool
  pub argc : ℕ

-- Every cache that is written holds what the search gives for its class.
pub record IsCoherent (fuel : ℕ) (cs : List Class) (sites : ℕ → Site) (cache : Caches)
    : Type 0 where
  pub agrees :
      (at k : ℕ) (m : Method)
      → cache at ≡ some (k, m)
      → look_up fuel cs k (sites at).name (sites at).static_call (sites at).argc ≡ ok m

hit-some :
    (entry : Option (ℕ × Method)) (k : ℕ) (m : Method) → hit entry k ≡ some m → entry ≡ some (k, m)
hit-some none k m e = cc
hit-some (some (c, x)) k m e = elim (Bool-cases (c == k)) [
  | inl same ↦
      let e' : some x ≡ some m = sym (ap (λ b. if b then some x else none) same) ∙ e in
      ap₂ (λ a b. some (a, b)) (==→eq c k same) (some_same e')
  | inr other ↦ let e' : none ≡ some m = sym (ap (λ b. if b then some x else none) other) ∙ e in cc
]

abbrev pub method_of : Outcome (Method × Caches) → Outcome Method
method_of (ok (m, cache)) = ok m
method_of (stop e) = stop e

method_of-fill :
    (x : Outcome Method) (cache : Caches) (at k : ℕ)
    → method_of (x >>= λ m. ok (fill cache at k m)) ≡ x
method_of-fill (ok m) cache at k = refl
method_of-fill (stop e) cache at k = refl

module _ {fuel : ℕ} {cs : List Class} {sites : ℕ → Site} {cache : Caches}
    (h : IsCoherent fuel cs sites cache) (at k : ℕ) where
  abbrev asked : Outcome Method
  asked = look_up fuel cs k (sites at).name (sites at).static_call (sites at).argc

  abbrev answer : Outcome (Method × Caches)
  answer = resolve fuel cs cache at k (sites at).name (sites at).static_call (sites at).argc

  updated_agrees :
      (m : Method)
      → asked ≡ ok m
      → (at' k' : ℕ) (m' : Method) → update_cache cache at (k, m) at' ≡ some (k', m')
      → look_up fuel cs k' (sites at').name (sites at').static_call (sites at').argc ≡ ok m'
  updated_agrees m found at' k' m' e = elim (Bool-cases (at == at')) [
    | inl same ↦
        let e' : (k, m) ≡ (k', m') =
          some_same (sym (ap (λ b. if b then some (k, m) else cache at') same) ∙ e) in
        subst
          (λ x.
            look_up fuel cs x.0 (sites at').name (sites at').static_call (sites at').argc ≡ ok x.1)
          e'
          (subst (λ x. look_up fuel cs k (sites x).name (sites x).static_call (sites x).argc ≡ ok m)
            (==→eq at at' same) found)
    | inr other ↦
        h.agrees at' k' m' (sym (ap (λ b. if b then some (k, m) else cache at') other) ∙ e)
  ]

  filled :
      (x : Outcome Method) (r : Method × Caches)
      → asked ≡ x
      → (x >>= λ m. ok (fill cache at k m)) ≡ ok r
      → IsCoherent fuel cs sites r.1
  filled (ok m) r found e =
      subst (λ y. IsCoherent fuel cs sites y.1) (ok_same e)
        (record { agrees = updated_agrees m found })
  filled (stop why) r found e = cc

  hit_same : (m : Method) → hit (cache at) k ≡ some m → answer ≡ ok (m, cache)
  unfolding resolve
  hit_same m e = ap (λ x. hit_or x cache (asked >>= λ m. ok (fill cache at k m))) e

  miss_same : hit (cache at) k ≡ none → answer ≡ (asked >>= λ m. ok (fill cache at k m))
  unfolding resolve
  miss_same e = ap (λ x. hit_or x cache (asked >>= λ m. ok (fill cache at k m))) e

  -- Where every cache that is written holds what the search gives for its class, at a site that
  -- always asks for a method of one name and kind and with one number of arguments, a call runs the
  -- method that the search gives, or fails as the search does, and the caches stay so.
  pub resolve-IsCoherent :
      (method_of answer ≡ asked)
      × ((r : Method × Caches) → answer ≡ ok r → IsCoherent fuel cs sites r.1)
  resolve-IsCoherent = elim (Option-cases (hit (cache at) k)) [
    | inl none_hit ↦ (
      ap method_of (miss_same none_hit) ∙ method_of-fill asked cache at k,
      λ r e. filled asked r refl (sym (miss_same none_hit) ∙ e),
    )
    | inr (m, one_hit) ↦ (
      ap method_of (hit_same m one_hit) ∙ sym (h.agrees at k m (hit-some (cache at) k m one_hit)),
      λ r e. subst (λ y. IsCoherent fuel cs sites y.1) (ok_same (sym (hit_same m one_hit) ∙ e)) h,
    )
  ]

hit_at : Method × Caches → ℕ → ℕ → Option Method
hit_at r at k = hit (r.1 at) k

fill-hit :
    (cache : Caches) (at k : ℕ) (m : Method) → hit (update_cache cache at (k, m) at) k ≡ some m
fill-hit cache at k m = rw (eq→== at at refl, eq→== k k refl) refl

searched_hit :
    (x : Outcome Method) (cache : Caches) (at k : ℕ) (m : Method) (cache' : Caches)
    → (x >>= λ y. ok (fill cache at k y)) ≡ ok (m, cache')
    → hit (cache' at) k ≡ some m
unfolding hit_at
searched_hit (stop why) cache at k m cache' e = cc
searched_hit (ok y) cache at k m cache' e =
    let same : (y, update_cache cache at (k, y)) ≡ (m, cache') = ok_same e in
    sym (ap (λ r. hit_at r at k) same) ∙ fill-hit cache at k y ∙ ap (λ r. some r.0) same

hit_kept :
    (x : Option Method) (cache : Caches) (at k : ℕ) (other : Outcome Method) (m : Method)
    (cache' : Caches)
    → hit (cache at) k ≡ x
    → hit_or x cache (other >>= λ y. ok (fill cache at k y)) ≡ ok (m, cache')
    → hit (cache' at) k ≡ some m
unfolding hit_at
hit_kept none cache at k other m cache' h e = searched_hit other cache at k m cache' e
hit_kept (some y) cache at k other m cache' h e =
    let same : (y, cache) ≡ (m, cache') = ok_same e in
    sym (ap (λ r. hit_at r at k) same) ∙ h ∙ ap (λ r. some r.0) same

module _ (fuel : ℕ) (cs : List Class) (cache : Caches) (at k : ℕ) (name : List ℕ)
    (static_call : Bool) (argc : ℕ) where
  -- A second call at the same site for the same class runs the method that the first one ran, and
  -- does not fail, whatever name, kind of call and number of arguments it asks for.
  pub resolve_again :
      (m : Method) (cache' : Caches)
      → resolve fuel cs cache at k name static_call argc ≡ ok (m, cache')
      → (fuel' : ℕ) (name' : List ℕ) (static_call' : Bool) (argc' : ℕ)
      → resolve fuel' cs cache' at k name' static_call' argc' ≡ ok (m, cache')
  unfolding resolve
  resolve_again m cache' e fuel' name' static_call' argc' =
      let now : hit (cache' at) k ≡ some m =
        hit_kept (hit (cache at) k) cache at k (look_up fuel cs k name static_call argc) m cache'
          refl e in
      ap
        (λ x.
          hit_or x cache'
            (look_up fuel' cs k name' static_call' argc' >>= λ y. ok (fill cache' at k y)))
        now
