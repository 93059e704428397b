-- ===== src/Storage/Index/Roots.antt =====
-- The levels of an index, up to its root.
use eve_db.Base.{
  ℕ, zero, suc, ◌≤◌, ◌<◌, ◌≡◌, refl, ◌∙◌, inl, inr, [], length, arith, ltb, if◌then◌else◌,
  Bool-cases,
}
use eve_db.Base.Order.{nat_ord, pair_ord}
use eve_db.Base.Assoc.{IsSorted}
use eve_db.Storage.Index.Writer.{IndexWriter, write_parents, write_levels}
use eve_db.Storage.Index.Entries.{AreEntries}
use eve_db.Storage.Index.Trees.{Entries}
use eve_db.Storage.Index.Levels.{HasRoom, IsFilling}
use eve_db.Storage.Index.Branches.{write_parents-Grouped}

-- A tree whose level is a single root, or empty.
pub record Rooted (w after : IndexWriter) (es : Entries) : Type 0 where
  pub height : ℕ
  pub filling : IsFilling after height es
  pub single : length after.level ≤ 1
  pub base_eq : after.base ≡ w.base
  pub lsn_eq : after.lsn ≡ w.lsn

pub write_levels-Rooted :
    (n : ℕ) (w : IndexWriter) (h : ℕ) (es : Entries)
    → length w.level ≤ n
    → IsFilling w h es
    → HasRoom w (length w.level)
    → IsSorted es
    → AreEntries es
    → Rooted w (write_levels n w) es
unfolding write_levels
write_levels-Rooted zero w h es p f room s words = record {
  height = h;
  filling = f;
  single = omega (arith, p);
  base_eq = refl;
  lsn_eq = refl;
}
write_levels-Rooted (suc n) w h es p f room s words = elim (Bool-cases (ltb 1 (length w.level))) [
  | inr x ↦
      rw (x, if◌then◌else◌)
        (record {
          height = h;
          filling = f;
          single = ground (arith, x);
          base_eq = refl;
          lsn_eq = refl;
        })
  | inl y ↦
      (let several : 1 < length w.level = ground (arith, y) in
        let bare = record w { level = [] } in
        let up =
          write_parents-Grouped (length w.level) w.level bare h [] es (omega arith)
            (record {
              is_file = record {
                whole = f.is_file.whole;
                past = f.is_file.past;
                lsn_lt = f.is_file.lsn_lt;
              };
              level = record { forest = refl; ids = tt };
            })
            (record { forest = f.level.forest; ids = f.level.ids }) (omega (arith, room, several)) s
            words in
        let further =
          write_levels-Rooted n (write_parents (length w.level) w.level bare) (suc h) es
            (omega (arith, up.few, several, p)) up.filling
            (omega (arith, up.pages, up.few, room, several)) s words in
        rw (y, if◌then◌else◌)
          (record {
            height = further.height;
            filling = further.filling;
            single = further.single;
            base_eq = further.base_eq ∙ up.base_eq;
            lsn_eq = further.lsn_eq ∙ up.lsn_eq;
          }))
]
