-- ===== src/CourseEditor/Examples.antt =====
-- Edits of a course with two blocks.
use mirai_app.Prelude.{◌≡◌, refl, ℕ, String, true, false, none, some, List, [], ◌∷◌, map}
use mirai_app.Prelude.Js.{done, units}
use mirai_app.Content.Types.{CourseBlock, heading, text}
use mirai_app.CourseEditor.{
  Editor, EditorEvent, update_block, delete_block, add_block, save, save_settled, without_block,
  new_block, on_delete, on_add, step, PartialAlignment, alignment_update,
}
use mirai_app.CourseEditor.Saves.{after}

abbrev block : String → ℕ → String → CourseBlock
block id order content = record {
  id = id;
  kind = text;
  content = units content;
  prompt = none;
  alignment = none;
  order = order;
  lesson_id = none;
}

abbrev opened : Editor
opened = record {
  lessons = [];
  local_blocks = block "b0" 0 "one" ∷ block "b1" 1 "two" ∷ [];
  active_block = none;
  show_alignment = false;
  show_add_menu = false;
  is_dirty = false;
  is_saving = false;
  last_saved_at = none;
  regenerating = none;
  job = none;
  stored = block "b0" 0 "one" ∷ block "b1" 1 "two" ∷ [];
  saves = [];
  refetches = [];
}

abbrev fresh : ℕ → String
fresh now = "block-1"

abbrev edits : List (ℕ × EditorEvent)
edits = (5, update_block (block "b1" 1 "three")) ∷ (6, save) ∷ (7, save_settled (done tt)) ∷ []

abbrev at_b1 : Editor
at_b1 = record opened { active_block = some "b1"; show_alignment = true }

abbrev to_sales : PartialAlignment
to_sales = record { personas = some ("sales" ∷ []); learning_objectives = none; kpis = none }

abbrev alignment_saved : Editor
alignment_saved =
    after fresh at_b1
      ((5, alignment_update to_sales) ∷ (5, save) ∷ (7, save_settled (done tt)) ∷ [])

-- A block that is added after a deletion gets an order that is taken.
order_taken :
    map
      (λ (b : CourseBlock). b.order)
      (after fresh opened ((5, delete_block "b0") ∷ (6, add_block heading) ∷ [])).local_blocks
    ≡ 1 ∷ 1 ∷ []
unfolding after step on_delete on_add new_block without_block
order_taken = refl
