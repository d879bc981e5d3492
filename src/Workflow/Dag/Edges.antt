-- ===== src/Workflow/Dag/Edges.antt =====
-- The dependencies that kahn of src/workflow/dag.js has counted off.
use ai_distributed_workflow.Base.{
  refl, suc, ℕ, ◌≡◌, arith, Bool, true, false, not, List, [], ◌∷◌, ◌||◌, ◌&&◌, String, same,
  same_iff, same_refl, length, count, any, All, Bool-cases, inl, inr, if◌then◌else◌,
}
use ai_distributed_workflow.Base.Dict.{has}
use ai_distributed_workflow.Workflow.Dag.Sets.{Unique}

-- Pairs of a dependency and the key of the task that has it.
abbrev pub Edges : Type 0
Edges = List (String × String)

unfoldable pub taken : Edges → String → String → Bool
taken x d c = any (λ e. same e.0 d && same e.1 c) x

-- How many of the dependencies of the task are not counted off.
unfoldable pub unmet : Edges → String → List String → ℕ
unfolding taken
unmet x key ds = count (λ d. not (taken x d key)) ds

pub taken-cons :
    (x : Edges) (p c d e : String)
    → taken ((p, c) ∷ x) d e ≡ ((same p d && same c e) || taken x d e)
unfolding taken
taken-cons x p c d e = refl

pub unmet-nil : (key : String) (ds : List String) → unmet [] key ds ≡ length ds
unfolding unmet taken
unmet-nil key [] = refl
unmet-nil key (d ∷ ds) = ground (arith, unmet-nil key ds)

unmet-cons :
    (x : Edges) (key d : String) (ds : List String)
    → unmet x key (d ∷ ds) ≡ (if taken x d key then unmet x key ds else suc (unmet x key ds))
unfolding unmet
unmet-cons x key d ds = ground arith

pub unmet-other :
    (x : Edges) (p c key : String) (ds : List String)
    → same c key ≡ false
    → unmet ((p, c) ∷ x) key ds ≡ unmet x key ds
unfolding unmet
unmet-other x p c key [] n = refl
unmet-other x p c key (d ∷ ds) n =
    ground (arith, n, taken-cons x p c d key, unmet-other x p c key ds n)

unmet-absent :
    (x : Edges) (p c key : String) (ds : List String)
    → has p ds ≡ false
    → unmet ((p, c) ∷ x) key ds ≡ unmet x key ds
unfolding unmet has
unmet-absent x p c key [] n = refl
unmet-absent x p c key (d ∷ ds) n =
    ground (arith, n, same_iff p d, same_iff d p, taken-cons x p c d key, unmet-absent x p c key ds)

-- Counting one dependency off.
pub unmet-take :
    (x : Edges) (p key : String) (ds : List String)
    → Unique ds
    → has p ds ≡ true
    → taken x p key ≡ false
    → unmet x key ds ≡ suc (unmet ((p, key) ∷ x) key ds)
unfolding has
unmet-take x p key [] u h n = absurd (ground (arith, h))
unmet-take x p key (d ∷ ds) (v, u) h n = elim (Bool-cases (same d p)) [
  | inl e ↦
      let eq : d ≡ p = (same_iff d p).0 e in
      let absent = unmet-absent x p key key ds (rw eq at v) in
      rw eq (
        ground (
          arith,
          absent,
          n,
          unmet-cons x key p ds,
          unmet-cons ((p, key) ∷ x) key p ds,
          taken-cons x p key p key,
          same_refl p,
          same_refl key,
        ))
  | inr e ↦
      let rest = unmet-take x p key ds u (ground (arith, e, h)) n in
      ground (
        arith,
        e,
        rest,
        unmet-cons x key d ds,
        unmet-cons ((p, key) ∷ x) key d ds,
        taken-cons x p key d key,
        same_iff p d,
        same_iff d p,
      )
]

pub unmet-zero :
    (x : Edges) (key : String) (ds : List String)
    → unmet x key ds ≡ 0
    → All (λ d. taken x d key ≡ true) ds
unmet-zero x key [] h = tt
unmet-zero x key (d ∷ ds) h = (
  ground (arith, h, unmet-cons x key d ds),
  unmet-zero x key ds (ground (arith, h, unmet-cons x key d ds)),
)
