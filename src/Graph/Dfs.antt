-- ===== src/Graph/Dfs.antt =====
-- One search by `contains_cycle_from`: with enough fuel it ends, and it leaves either a cycle on
-- `discovered` or a longer topological order in `finished`.
use aleotiktacto.Prelude.{
  ℕ, zero, suc, ◌≤◌, ◌<◌, ◌≡◌, refl, inl, inr, true, false, List, [], ◌∷◌, ◌++◌, arith, Bool-cases,
  reverse,
}
use aleotiktacto.IndexSet.{contains, insert, index_of}
use aleotiktacto.IndexSet.Laws.{
  contains-concat, contains-insert, insert_new, pop-concat, reverse-concat, Nodup, Nodup-insert,
  index_of-append_of_contains, index_of-concat, index_of-lt,
}
use aleotiktacto.Graph.{
  DiGraph, Search, found, done, out_of_fuel, resume, visit_children, children, contains_cycle_from,
}
use aleotiktacto.Graph.Edges.{Edge, IsWellFormed}
use aleotiktacto.Graph.Depth.{unvisited, unvisited-concat-lt}

abbrev pub Extends : List ℕ → List ℕ → Type 0
Extends f f' = (a : ℕ) → contains f a ≡ true → contains f' a ≡ true

-- The members of the list, the last one first, lead along edges to `c`.
abbrev pub Trail : DiGraph → ℕ → List ℕ → Type 0
Trail g c [] = Unit {0}
Trail g c (x ∷ r) = Edge g x c × Trail g x r

-- `f` is a topological order of the nodes in it, and is closed under edges.
pub record IsFinished (g : DiGraph) (f : List ℕ) : Type 0 where
  pub nodup : Nodup f
  pub within : (a : ℕ) → contains f a ≡ true → contains g.nodes a ≡ true
  pub closed : (u v : ℕ) → contains f u ≡ true → Edge g u v → contains f v ≡ true
  pub ordered : (u v : ℕ) → contains f u ≡ true → Edge g u v → index_of f v < index_of f u

abbrev pub IsFound : DiGraph → ℕ → List ℕ → Type 0
IsFound g c d = Trail g c (reverse d) × (contains d c ≡ true)

-- The search ended: with a cycle, or with `discovered` as it was and `P` of `finished`.
abbrev pub Ends : DiGraph → List ℕ → (List ℕ → Type 0) → Search → Type 0
Ends g d P (found c d' f) = IsFound g c d'
Ends g d P (done d' f) = (d' ≡ d) × P f
Ends g d P out_of_fuel = ⊥

pub Ends-resume :
    (g : DiGraph) (d e : List ℕ) (P Q : List ℕ → Type 0) (s : Search) (k : List ℕ → List ℕ → Search)
    → Ends g d P s
    → ((f : List ℕ) → P f → Ends g e Q (k d f))
    → Ends g e Q (resume s k)
unfolding resume
Ends-resume g d e P Q (found c d' f) k h next = h
Ends-resume g d e P Q (done d' f) k h next = rw h.0 (next f h.1)
Ends-resume g d e P Q out_of_fuel k h next = absurd h

pub Ends-map :
    (g : DiGraph) (d : List ℕ) (P Q : List ℕ → Type 0) (s : Search)
    → ((f : List ℕ) → P f → Q f)
    → Ends g d P s
    → Ends g d Q s
Ends-map g d P Q (found c d' f) k h = h
Ends-map g d P Q (done d' f) k h = (h.0, k f h.1)
Ends-map g d P Q out_of_fuel k h = absurd h

first : (c : ℕ) (cs : List ℕ) → contains (c ∷ cs) c ≡ true
first c cs = ground arith

later : (a c : ℕ) (cs : List ℕ) → contains cs a ≡ true → contains (c ∷ cs) a ≡ true
later a c cs h = ground arith

pub cons_all :
    (c : ℕ) (cs f : List ℕ)
    → contains f c ≡ true
    → ((a : ℕ) → contains cs a ≡ true → contains f a ≡ true)
    → (a : ℕ) → contains (c ∷ cs) a ≡ true
    → contains f a ≡ true
cons_all c cs f h rest a m = ground (arith, rest a)

-- What exploring `c` and what the loop over `cs` add to `finished`.
abbrev pub Explored : DiGraph → List ℕ → ℕ → List ℕ → Type 0
Explored g f c f' = IsFinished g f' × Extends f f' × (contains f' c ≡ true)

abbrev pub ExploredAll : DiGraph → List ℕ → List ℕ → List ℕ → Type 0
ExploredAll g f cs f' =
    IsFinished g f' × Extends f f' × ((c : ℕ) → contains cs c ≡ true → contains f' c ≡ true)

module _ (g : DiGraph) (node : ℕ) (explore : ℕ → List ℕ → List ℕ → Search) (d : List ℕ)
    (trail : (c : ℕ) → Edge g node c → Trail g c (reverse d))
    (explored : (c : ℕ) (f : List ℕ)
      → Edge g node c
      → contains d c ≡ false
      → IsFinished g f
      → Ends g d (Explored g f c) (explore c d f)) where
  pub visit_children-Ends :
      (cs f : List ℕ)
      → ((c : ℕ) → contains cs c ≡ true → Edge g node c)
      → IsFinished g f
      → Ends g d (ExploredAll g f cs) (visit_children explore cs d f)
  unfolding visit_children
  visit_children-Ends [] f edge fin = (refl, (fin, (λ a h. h), λ c h. ground arith))
  visit_children-Ends (c ∷ cs) f edge fin = elim (Bool-cases (contains d c)) [
    | inl seen ↦ rw (seen, visit_children) (trail c (edge c (first c cs)), seen)
    | inr fresh ↦
        rw (fresh, visit_children)
          (elim (Bool-cases (contains f c)) [
            | inl old ↦
                rw (old, visit_children)
                  (Ends-map g d _ _ _ (λ f' e. (e.0, e.1, cons_all c cs f' (e.1 c old) e.2))
                    (visit_children-Ends cs f (λ a h. edge a (later a c cs h)) fin))
            | inr new ↦
                rw (new, visit_children)
                  (Ends-resume g d d (Explored g f c) (ExploredAll g f (c ∷ cs)) (explore c d f)
                    (visit_children explore cs) (explored c f (edge c (first c cs)) fresh fin)
                    (λ f' e.
                      Ends-map g d _ _ _
                        (λ f'' e'.
                          (e'.0, (λ a h. e'.1 a (e.1 a h)), cons_all c cs f'' (e'.1 c e.2) e'.2))
                        (visit_children-Ends cs f' (λ a h. edge a (later a c cs h)) e.0)))
          ])
  ]

-- A node whose children are all finished is added at the end of the order.
IsFinished-insert :
    (g : DiGraph) (f : List ℕ) (node : ℕ)
    → IsFinished g f
    → contains g.nodes node ≡ true
    → ((v : ℕ) → Edge g node v → contains f v ≡ true)
    → IsFinished g (insert node f)
IsFinished-insert g f node fin here all = elim (Bool-cases (contains f node)) [
  | inl old ↦ unfold insert in rw old fin
  | inr new ↦ record {
    nodup = Nodup-insert node f fin.nodup;
    within = λ a h. ground (arith, contains-insert node f a, fin.within a);
    closed = λ u v h e.
        ground (arith, contains-insert node f u, contains-insert node f v, fin.closed u v, all v);
    ordered = λ u v h e. rw (insert_new node f new) (
        ground (
          arith,
          contains-insert node f u,
          contains-concat f node u,
          fin.closed u v,
          fin.ordered u v,
          all v,
          index_of-append_of_contains f (node ∷ []) u,
          index_of-append_of_contains f (node ∷ []) v,
          index_of-concat f node,
          index_of-lt f v,
        ));
  }
]

-- One search from a node that is not on the path.
pub contains_cycle_from-Ends :
    (g : DiGraph) (fuel node : ℕ) (d f : List ℕ)
    → IsWellFormed g
    → contains g.nodes node ≡ true
    → contains d node ≡ false
    → unvisited g.nodes d ≤ fuel
    → Trail g node (reverse d)
    → IsFinished g f
    → Ends g d (Explored g f node) (contains_cycle_from g fuel node d f)
unfolding contains_cycle_from
contains_cycle_from-Ends g zero node d f wf here fresh enough trail fin =
    absurd (omega (arith, unvisited-concat-lt g.nodes d node here fresh))
contains_cycle_from-Ends g (suc fuel) node d f wf here fresh enough trail fin =
    let added = insert_new node d fresh in
    rw added (
      Ends-resume g (d ++ node ∷ []) d (ExploredAll g f (children g node)) (Explored g f node) _ _
        (visit_children-Ends g node (contains_cycle_from g fuel) (d ++ node ∷ [])
          (λ c e. rw reverse-concat (e, trail))
          (λ c f' e out fin'.
            contains_cycle_from-Ends g fuel c (d ++ node ∷ []) f' wf (wf.target node c e) out
              (omega (arith, unvisited-concat-lt g.nodes d node here fresh))
              (rw reverse-concat (e, trail)) fin')
          (children g node) f (λ c h. h) fin)
        (λ f' e. (
          pop-concat d node,
          (
            IsFinished-insert g f' node e.0 here (λ v h. e.2 v h),
            (λ a h. ground (arith, contains-insert node f' a, e.1 a h)),
            ground (arith, contains-insert node f' node),
          ),
        )))
