-- ===== src/LinkedBook/Outer.antt =====
-- The outer loop of `add_limit_order` on linked nodes, against the same loop on lists of nodes.
use lowlatency_exec_core.Common.{
  ℕ, zero, suc, ◌≡◌, refl, sym, ap, ◌∙◌, subst, true, false, some, none, List, [], ◌∷◌, ◌++◌, ◌==◌,
  arith, Bool-cases, inl, inr, if◌then◌else◌, Option-cases,
}
use lowlatency_exec_core.Types.{Price, Quantity, Trade}
use lowlatency_exec_core.Slab.{Ptr, null}
use lowlatency_exec_core.Slab.Pool.{Distinct}
use lowlatency_exec_core.Levels.{Levels, is_empty}
use lowlatency_exec_core.Levels
use lowlatency_exec_core.Nodes.{Nodes, PriceLevel}
use lowlatency_exec_core.Nodes.Linked.{IsQueue, addresses}
use lowlatency_exec_core.Book.{Taker, Engine, Run, run_of, is_positive, too_far}
use lowlatency_exec_core.Book.While
use lowlatency_exec_core.LinkedBook.{SideLevels, fill_while, sweep_while, after_fill}
use lowlatency_exec_core.LinkedBook.Stands.{
  Stands, places, Keeps, Within, Apart, Apart-sym, Within-left, Within-right, Within-out,
  Distinct-Apart, Distinct_join, Stands-Keeps, head-is_empty,
}
use lowlatency_exec_core.Book.Untracked.{has-append, Distinct-parts}
use lowlatency_exec_core.LinkedBook.Inner.{fill_while-Follows}

-- The loop on the links stands at `s` where the loop on the lists stands at `c`.
abbrev pub FollowsSide : Nodes → List Ptr → Run (SideLevels × Nodes) → Run Levels → Type 0
FollowsSide m ps s c =
    (ks : SideLevels) × (m' : Nodes) × (s ≡ run_of c.trades c.remaining (ks, m') c.engine)
    × Stands m' ks c.rest
    × Keeps ps m m'
    × Within (places c.rest) ps

-- The levels after one round, of which the first has the nodes `ns'` left.
module _ (p : Price) (level : PriceLevel) (ns ns' : Levels.PriceLevel) (ks : SideLevels)
    (ls : Levels) (m m' : Nodes) (v : Stands m ks ls) (d : Distinct (addresses ns ++ places ls))
    (q : IsQueue m' level ns') (k : Keeps (addresses ns) m m')
    (w : Within (addresses ns') (addresses ns)) where
  abbrev rest_linked : SideLevels
  rest_linked = if level.head == null then ks else (p, level) ∷ ks

  abbrev rest_listed : Levels
  rest_listed = if is_empty ns' then ls else (p, ns') ∷ ls

  apart_rest : Apart (addresses ns) (places ls)
  apart_rest = Distinct-Apart (addresses ns) (places ls) d

  later : Stands m' ks ls
  later =
      Stands-Keeps m m' (addresses ns) ks ls (Apart-sym (addresses ns) (places ls) apart_rest) k v

  round-Stands : Stands m' rest_linked rest_listed
  round-Stands = rw (head-is_empty m' level ns' q) (elim (Bool-cases (is_empty ns')) [
    | inl emptied ↦ rw emptied later
    | inr more ↦ rw more (refl, q, later)
  ])

  round-Distinct : Distinct (places rest_listed)
  round-Distinct =
      let parts = Distinct-parts (addresses ns) (places ls) d in
      elim (Bool-cases (is_empty ns')) [
        | inl emptied ↦ rw emptied parts.1
        | inr more ↦ rw more (
            Distinct_join (addresses ns') (places ls) q.distinct parts.1
              (λ x inside. apart_rest x (w x inside)))
      ]

  round-Within : Within (places rest_listed) (addresses ns ++ places ls)
  round-Within x = elim (Bool-cases (is_empty ns')) [
    | inl emptied ↦ rw emptied (Within-right (addresses ns) (places ls) x)
    | inr more ↦ rw more (λ inside. ground (
      arith,
      inside,
      has-append x (addresses ns') (places ls),
      has-append x (addresses ns) (places ls),
      w x,
    ))
  ]

module _ (t : Taker) (m : Nodes) (ps : List Ptr) where
  abbrev Ends : ℕ → Run (SideLevels × Nodes) → Run Levels → Type 0
  Ends fuel s c =
      (s' : Run (SideLevels × Nodes)) × (sweep_while fuel t s ≡ some s') × FollowsSide m ps s' c

  module _ (ks : SideLevels) (m' : Nodes) (k : Keeps ps m m') (ts : List Trade) (r : Quantity)
      (e : Engine) where
    stopped :
        (fuel : ℕ) (ls : Levels) (c : Run Levels)
        → Stands m' ks ls
        → Within (places ls) ps
        → sweep_while fuel t (run_of ts r (ks, m') e) ≡ some (run_of ts r (ks, m') e)
        → some (run_of ts r ls e) ≡ some c
        → Ends fuel (run_of ts r (ks, m') e) c
    stopped fuel ls c v w ended same =
        let named : run_of ts r ls e ≡ c = cc in
        subst (Ends fuel (run_of ts r (ks, m') e)) named
          (run_of ts r (ks, m') e, ended, (ks, m', refl, v, k, w))

  sweep_while_round :
      (fuel : ℕ) (p : Price) (level : PriceLevel) (ks : SideLevels) (m' : Nodes) (ts : List Trade)
      (r : Quantity) (e : Engine) (s : Run (PriceLevel × Nodes))
      → is_positive r ≡ true
      → too_far t.side t.price p ≡ false
      → fill_while fuel t p (run_of ts r (level, m') e) ≡ some s
      → sweep_while (suc fuel) t (run_of ts r ((p, level) ∷ ks, m') e)
        ≡ sweep_while fuel t (after_fill p ks s)
  unfolding sweep_while
  sweep_while_round fuel p level ks m' ts r e s more near ended = rw (more, near, ended) refl

  pub sweep_while-Follows :
      (fuel : ℕ) (ks : SideLevels) (m' : Nodes) (ts : List Trade) (r : Quantity) (ls : Levels)
      (e : Engine) (c : Run Levels)
      → Stands m' ks ls
      → Distinct (places ls)
      → Keeps ps m m'
      → Within (places ls) ps
      → While.sweep_while fuel t (run_of ts r ls e) ≡ some c
      → Ends fuel (run_of ts r (ks, m') e) c
  unfolding While.sweep_while sweep_while
  sweep_while-Follows fuel [] m' ts r (l ∷ ls) e c v d k w h = absurd v
  sweep_while-Follows fuel (l ∷ ks) m' ts r [] e c v d k w h = absurd v
  sweep_while-Follows zero [] m' ts r [] e c v d k w h = stopped [] m' k ts r e zero [] c v w refl h
  sweep_while-Follows (suc fuel) [] m' ts r [] e c v d k w h =
      stopped [] m' k ts r e (suc fuel) [] c v w refl h
  sweep_while-Follows zero ((p, level) ∷ ks) m' ts r ((q, ns) ∷ ls) e c v d k w h =
      elim (Bool-cases (is_positive r)) [
        | inl more ↦ absurd (never (rw more at h))
        | inr enough ↦
            stopped ((p, level) ∷ ks) m' k ts r e zero ((q, ns) ∷ ls) c v w (rw enough refl)
              (rw enough at h)
      ]
    where
      never : none ≡ some c → ⊥
      never same = cc
  sweep_while-Follows (suc fuel) ((p, level) ∷ ks) m' ts r ((q, ns) ∷ ls) e c v d k w h =
      elim (Bool-cases (is_positive r)) [
        | inr enough ↦
            stopped ((p, level) ∷ ks) m' k ts r e (suc fuel) ((q, ns) ∷ ls) c v w (rw enough refl)
              (rw enough at h)
        | inl more ↦ elim (Bool-cases (too_far t.side t.price q)) [
          | inl far ↦
              stopped ((p, level) ∷ ks) m' k ts r e (suc fuel) ((q, ns) ∷ ls) c v w
                (rw (more, v.0, far) refl) (rw (more, far) at h)
          | inr near ↦ elim (Option-cases (While.fill_while fuel t q (run_of ts r ns e))) [
            | inl out ↦ absurd (never (rw (more, near, out) at h))
            | inr (f, filled) ↦
                let (s, ended, (level', m'', same, v', k', w')) =
                  fill_while-Follows t q m' (addresses ns) fuel level m' ts r ns e f v.1
                    (λ x out. refl) (λ x inside. inside) filled in
                let ks' = rest_linked q level' ns f.rest ks ls m' m'' v.2 d v' k' w' in
                let ls' = rest_listed q level' ns f.rest ks ls m' m'' v.2 d v' k' w' in
                let (s', ended', g) =
                  sweep_while-Follows fuel ks' m'' f.trades f.remaining ls' f.engine c
                    (round-Stands q level' ns f.rest ks ls m' m'' v.2 d v' k' w')
                    (round-Distinct q level' ns f.rest ks ls m' m'' v.2 d v' k' w')
                    (λ x out.
                      k' x (
                        Within-out (addresses ns) ps
                          (λ y inside. w y (Within-left (addresses ns) (places ls) y inside)) x out)
                      ∙ k x out)
                    (λ x inside.
                      w x (round-Within q level' ns f.rest ks ls m' m'' v.2 d v' k' w' x inside))
                    (rw (more, near, filled) at h) in
                (
                  s',
                  subst
                      (λ x.
                        sweep_while (suc fuel) t (run_of ts r ((x, level) ∷ ks, m') e) ≡ some s')
                      (sym (v.0))
                      (sweep_while_round fuel q level ks m' ts r e s more near ended
                        ∙ (ap (λ x. sweep_while fuel t (after_fill q ks x)) same ∙ ended')),
                  g,
                )
          ]
        ]
      ]
    where
      never : none ≡ some c → ⊥
      never same = cc
