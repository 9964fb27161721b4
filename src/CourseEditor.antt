-- ===== src/CourseEditor.antt =====
-- components/course/CourseEditor.tsx with store/zustand/courseEditorStore.ts: the editor's own copy of
-- the blocks, its save state, and the regeneration of a block; and of hooks/useCourses.ts the blocks
-- that a save sends. `stored` is what the service holds, the blocks of the last save that succeeded.
-- Calls that are under way are queues: the events `save_settled` and `lesson_fetched` answer the
-- first of them; an answer without a call does not happen.
pub mod Saves
mod Examples
use mirai_app.Prelude.{
  ℕ, ◌+◌, String, Bool, true, false, not, ◌&&◌, ◌||◌, Option, none, some, List, [], ◌∷◌, ◌++◌,
  length, str_eq, if◌then◌else◌,
}
use mirai_app.Prelude.Js.{Outcome, done, failed, is_nonempty, truthy, truthy?, units}
use mirai_app.Content.Types.{
  BlockType, heading, text, interactive, knowledge_check, BlockAlignment, CourseBlock,
}

-- A component of a generated lesson, and a lesson of the course with the ids of its blocks.
pub record LessonComponent : Type 0 where
  pub id : String
  pub content_json : List ℕ

pub record CourseLesson : Type 0 where
  pub id : String
  pub block_ids : List String

pub data JobStatus : Type 0 where
  running completed job_failed : JobStatus

-- The state of the component with the store. What the effect of a completed job closes over waits
-- in `refetches`: the block and the component as they were then.
pub record Editor : Type 0 where
  pub lessons : List CourseLesson
  pub local_blocks : List CourseBlock
  pub active_block : Option String
  pub show_alignment : Bool
  pub show_add_menu : Bool
  pub is_dirty : Bool
  pub is_saving : Bool
  pub last_saved_at : Option ℕ
  pub regenerating : Option String
  pub job : Option String
  pub stored : List CourseBlock
  pub saves : List (List CourseBlock)
  pub refetches : List (Option CourseBlock × Option LessonComponent)

-- The three lists of a partial alignment.
pub record PartialAlignment : Type 0 where
  pub personas : Option (List String)
  pub learning_objectives : Option (List String)
  pub kpis : Option (List String)

pub data EditorEvent : Type 0 where
  loaded : List CourseBlock → EditorEvent
  update_block : CourseBlock → EditorEvent
  delete_block : String → EditorEvent
  alignment_click : String → EditorEvent
  alignment_update : PartialAlignment → EditorEvent
  add_block : BlockType → EditorEvent
  save : EditorEvent
  save_settled : Outcome (Unit {0}) → EditorEvent
  regenerate : EditorEvent
  regenerate_settled : Outcome (Option String) → EditorEvent
  job_seen : JobStatus → Option (List LessonComponent) → EditorEvent
  lesson_fetched : EditorEvent

-- `blocks.find`, and the two changes of the list.
unfoldable pub find_block : String → List CourseBlock → Option CourseBlock
find_block id [] = none
find_block id (b ∷ bs) = if str_eq b.id id then some b else find_block id bs

unfoldable pub replace_block : CourseBlock → List CourseBlock → List CourseBlock
replace_block new [] = []
replace_block new (b ∷ bs) =
    let rest = replace_block new bs in if str_eq b.id new.id then new ∷ rest else b ∷ rest

unfoldable pub without_block : String → List CourseBlock → List CourseBlock
without_block id [] = []
without_block id (b ∷ bs) =
    let rest = without_block id bs in if str_eq b.id id then rest else b ∷ rest

unfoldable pub find_component : String → List LessonComponent → Option LessonComponent
find_component id [] = none
find_component id (c ∷ cs) = if str_eq c.id id then some c else find_component id cs

unfoldable pub has_block : String → List String → Bool
has_block id [] = false
has_block id (i ∷ is) = str_eq i id || has_block id is

-- `findLessonIdForBlock`.
unfoldable pub find_lesson_id : String → List CourseLesson → Option String
unfolding has_block
find_lesson_id id [] = none
find_lesson_id id (l ∷ ls) = if has_block id l.block_ids then some l.id else find_lesson_id id ls

-- `getDefaultContent`.
unfoldable pub default_content : BlockType → List ℕ
unfolding units
default_content heading = units "New Section Heading"
default_content text =
    units
      "Enter your content here. This text block can contain detailed explanations, examples, and supporting information for your learners."
default_content interactive =
    units
      "Interactive exercise: Learners will engage with this content through activities, simulations, or practice scenarios."
default_content knowledge_check =
    units "Test your understanding: Complete this knowledge check to reinforce your learning."

abbrev no_alignment : BlockAlignment
no_alignment = record { personas = []; learning_objectives = []; kpis = [] }

abbrev or_list : Option (List String) → List String → List String
or_list none d = d
or_list (some l) d = l

abbrev current_alignment : CourseBlock → BlockAlignment
current_alignment b = elim b.alignment [ none ↦ no_alignment | some a ↦ a ]

unfoldable pub aligned : PartialAlignment → CourseBlock → CourseBlock
aligned p b = record b {
  alignment = some (record {
    personas = or_list p.personas (current_alignment b).personas;
    learning_objectives = or_list p.learning_objectives (current_alignment b).learning_objectives;
    kpis = or_list p.kpis (current_alignment b).kpis;
  });
}

-- `handleBlockUpdate`, `handleBlockDelete` and `handleAddBlock`; `fresh` makes the id of the time.
unfoldable pub on_update : CourseBlock → Editor → Editor
unfolding replace_block
on_update b s = record s { local_blocks = replace_block b s.local_blocks; is_dirty = true }

abbrev is_active : String → Editor → Bool
is_active id s = elim s.active_block [ none ↦ false | some a ↦ str_eq a id ]

unfoldable pub on_delete : String → Editor → Editor
unfolding without_block
on_delete id s =
    let s' : Editor = record s {
      local_blocks = without_block id s.local_blocks;
      is_dirty = true;
    } in
    if is_active id s then record s' { active_block = none; show_alignment = false } else s'

unfoldable pub new_block : (ℕ → String) → ℕ → BlockType → Editor → CourseBlock
unfolding default_content
new_block fresh now kind s = record {
  id = fresh now;
  kind = kind;
  content = default_content kind;
  prompt = none;
  alignment = none;
  order = length s.local_blocks;
  lesson_id = none;
}

unfoldable pub on_add : (ℕ → String) → ℕ → BlockType → Editor → Editor
unfolding new_block
on_add fresh now kind s = record s {
  local_blocks = s.local_blocks ++ new_block fresh now kind s ∷ [];
  show_add_menu = false;
  is_dirty = true;
}

-- `handleAlignmentUpdate`.
unfoldable pub on_alignment : PartialAlignment → Editor → Editor
unfolding find_block on_update aligned
on_alignment p s = elim s.active_block [
  | none ↦ s
  | some id ↦
      if truthy id
      then elim (find_block id s.local_blocks) [ none ↦ s | some b ↦ on_update (aligned p b) s ]
      else s
]

-- The blocks of the request of `useUpdateCourse`, which has five fields of each.
unfoldable pub sent_blocks : List CourseBlock → List CourseBlock
sent_blocks [] = []
sent_blocks (b ∷ bs) = record b { alignment = none; lesson_id = none } ∷ sent_blocks bs

-- `handleSave`, up to its answer, and from there.
abbrev on_save : Editor → Editor
on_save s = record s { is_saving = true; saves = s.saves ++ sent_blocks s.local_blocks ∷ [] }

unfoldable pub on_saved : ℕ → Outcome (Unit {0}) → Editor → Editor
on_saved now o s = elim s.saves [
  | [] ↦ s
  | sent ∷ rest ↦ elim o [
    | done u ↦ record s {
      stored = sent;
      saves = rest;
      is_dirty = false;
      last_saved_at = some now;
      is_saving = false;
    }
    | failed e ↦ record s { saves = rest; is_saving = false }
  ]
]

-- `handleBlockRegenerate` needs a block that is there and in a lesson.
abbrev active_there : Editor → Option CourseBlock
active_there s = elim s.active_block [ none ↦ none | some id ↦ find_block id s.local_blocks ]

unfoldable pub on_regenerate : Editor → Editor
unfolding find_block find_lesson_id
on_regenerate s = elim (active_there s) [
  | none ↦ s
  | some b ↦
      if truthy? (find_lesson_id b.id s.lessons) then record s { regenerating = some b.id } else s
]

unfoldable pub on_job_made : Outcome (Option String) → Editor → Editor
on_job_made (failed e) s = record s { regenerating = none }
on_job_made (done none) s = s
on_job_made (done (some job)) s = record s { job = some job }

-- The effect on the job: it asks for the lesson again, and closes over what is there before.
abbrev component_of : String → Option (List LessonComponent) → Option LessonComponent
component_of id none = none
component_of id (some cs) = find_component id cs

abbrev on_status : JobStatus → Option (List LessonComponent) → Option String → Editor → Editor
on_status completed lesson (some id) s = record s {
  refetches = s.refetches ++ (find_block id s.local_blocks, component_of id lesson) ∷ [];
}
on_status job_failed lesson id s = record s { regenerating = none; job = none }
on_status _ lesson id s = s

unfoldable pub on_job : JobStatus → Option (List LessonComponent) → Editor → Editor
unfolding find_block find_component
on_job status lesson s =
    let next = on_status status lesson s.regenerating s in
    if truthy? s.job && truthy? s.regenerating then next else s

unfoldable pub regenerated : Option CourseBlock → Option LessonComponent → Editor → Editor
unfolding on_update
regenerated (some b) (some c) s = on_update (record b { content = c.content_json }) s
regenerated _ _ s = s

unfoldable pub on_fetched : Editor → Editor
unfolding regenerated
on_fetched s = elim s.refetches [
  | [] ↦ s
  | closure ∷ rest ↦ record (regenerated closure.0 closure.1 s) {
    refetches = rest;
    regenerating = none;
    job = none;
  }
]

module _ (fresh : ℕ → String) where
  unfoldable pub step : Editor → ℕ × EditorEvent → Editor
  unfolding on_update on_delete on_add on_alignment on_saved on_regenerate on_job_made on_job
      on_fetched
  -- The copy is taken from the course whenever the query has new blocks, and some.
  step s (now, loaded blocks) = if is_nonempty blocks then record s { local_blocks = blocks } else s
  step s (now, update_block b) = on_update b s
  step s (now, delete_block id) = on_delete id s
  step s (now, alignment_click id) = record s { active_block = some id; show_alignment = true }
  step s (now, alignment_update p) = on_alignment p s
  step s (now, add_block kind) = on_add fresh now kind s
  step s (now, save) = on_save s
  step s (now, save_settled o) = on_saved now o s
  step s (now, regenerate) = on_regenerate s
  step s (now, regenerate_settled o) = on_job_made o s
  step s (now, job_seen status lesson) = on_job status lesson s
  step s (now, lesson_fetched) = on_fetched s
