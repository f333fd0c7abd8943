-- ===== src/Paging/Map.antt =====
-- What `mapPage` promises: the page that it maps is translated, no other translation changes, and
-- the tables stay trees.
use mathlib.Core.Path.{subst}
use littlevisor.Base.{ℕ, ◌<◌, ◌≡◌, ◌∙◌, some, [], ◌∷◌, arith}
use littlevisor.Paging.{Machine, index, map_level}
use littlevisor.Paging.Entry.{index-lt}
use littlevisor.Paging.Tree.{
  Place, Labels, Upper, IsTree, Extends, KeepsWalks, KeepsLeaves, KeepsPrivate,
}
use littlevisor.Paging.Tree.Level.{IsFlags, Step, Outcome}
use littlevisor.Paging.Tree.Link.{map_level-Step}
use littlevisor.Paging.Walk.{Walk, leaf_place}

-- What some operation did to the tables, apart from where it arrived.
pub record Grown (m : Machine) (label : Labels) (m' : Machine) : Type 0 where
  pub label' : Labels
  pub tree : IsTree m' label'
  pub extends : Extends label label'
  pub keeps : KeepsWalks m m' label
  pub frames : KeepsPrivate m label m' label'
  pub cr3 : m'.cr3_val ≡ m.cr3_val

-- The three rounds of the loop: the last table of the address is there, and its place is right.
pub record Reached (m : Machine) (label : Labels) (r v t3 : ℕ) (m3 : Machine) : Type 0 where
  pub grown : Grown m label m3
  pub leaves : KeepsLeaves m m3 label
  pub walk : Walk m3.words r v t3
  pub arrives : grown.label' t3 ≡ some (leaf_place v)

module _ {m : Machine} {label : Labels} (tree : IsTree m label) (r v flags : ℕ)
    (at : label r ≡ some []) (ok : IsFlags flags) where
  outcome :
      (t i : ℕ) (place : Place) (m0 : Machine) (label0 : Labels) {t' : ℕ} {m' : Machine}
      → IsTree m0 label0
      → label0 t ≡ some place
      → Upper place
      → i < 512
      → map_level m0 t i flags ≡ some (t', m')
      → Step m0 label0 t i place t' m'
  outcome t i place m0 label0 tree0 at0 up h e =
      subst (Outcome m0 label0 t i place) e (map_level-Step tree0 t i flags at0 up h ok)

  pub reach :
      {t1 t2 t3 : ℕ} {m1 m2 m3 : Machine}
      → map_level m r (index v 0) flags ≡ some (t1, m1)
      → map_level m1 t1 (index v 1) flags ≡ some (t2, m2)
      → map_level m2 t2 (index v 2) flags ≡ some (t3, m3)
      → Reached m label r v t3 m3
  reach {t1} {t2} {t3} {m1} {m2} {m3} e1 e2 e3 =
      let a = outcome r (index v 0) [] m label tree at (omega arith) (index-lt v 0) e1 in
      let b =
        outcome t1 (index v 1) (index v 0 ∷ []) m1 a.label' a.tree a.arrives (omega arith)
          (index-lt v 1) e2 in
      let c =
        outcome t2 (index v 2) (index v 1 ∷ index v 0 ∷ []) m2 b.label' b.tree b.arrives
          (omega arith) (index-lt v 2) e3 in
      record {
        grown = record {
          label' = c.label';
          tree = c.tree;
          extends = λ p place e. c.extends p place (b.extends p place (a.extends p place e));
          keeps = λ p i q place e up h w.
              c.keeps p i q place (b.extends p place (a.extends p place e)) up h
                (b.keeps p i q place (a.extends p place e) up h (a.keeps p i q place e up h w));
          frames = λ q own.
              let (own1, same1) = a.frames q own in
              let (own2, same2) = b.frames q own1 in
              let (own3, same3) = c.frames q own2 in
              (own3, λ j h. same3 j h ∙ same2 j h ∙ same1 j h);
          cr3 = c.cr3 ∙ b.cr3 ∙ a.cr3;
        };
        leaves = λ p i place e leaf h.
            c.leaves p i place (b.extends p place (a.extends p place e)) leaf h
            ∙ b.leaves p i place (a.extends p place e) leaf h
            ∙ a.leaves p i place e leaf h;
        walk = record {
          table1 = t1;
          table2 = t2;
          step0 =
              c.keeps r (index v 0) t1 [] (b.extends r [] (a.extends r [] at)) (omega arith)
                (index-lt v 0)
                (b.keeps r (index v 0) t1 [] (a.extends r [] at) (omega arith) (index-lt v 0)
                  a.walks);
          step1 =
              c.keeps t1 (index v 1) t2 (index v 0 ∷ []) (b.extends t1 (index v 0 ∷ []) a.arrives)
                (omega arith) (index-lt v 1) b.walks;
          step2 = c.walks;
        };
        arrives = c.arrives;
      }
