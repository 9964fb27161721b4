-- ===== src/Content/Course.antt =====
-- lib/contentTransform.ts: generatedLessonsToCourseContent and transformRegeneratedComponent.
use mirai_app.Prelude.{
  ◌>>=◌, ℕ, zero, suc, ◌+◌, String, Option, none, some, List, [], ◌∷◌, ◌++◌, str_eq, if◌then◌else◌,
  length,
}
use mirai_app.Prelude.Sort.{sort_by}
use mirai_app.Content.Types.{
  LessonComponent, GeneratedLesson, OutlineSection, BlockAlignment, CourseBlock, Lesson,
  CourseSection, ContentParser,
}
use mirai_app.Content.Transform.{lesson_component_to_course_block, generated_lesson_to_lesson}

-- `lesson.blocks?`.
abbrev pub blocks_in : Lesson → List CourseBlock
blocks_in l = elim l.blocks [ none ↦ [] | some bs ↦ bs ]

-- `forEach` over a lesson's blocks: each is pushed with the next global order.
unfoldable pub push_blocks : String → ℕ → List CourseBlock → List CourseBlock
push_blocks lesson n [] = []
push_blocks lesson n (b ∷ bs) =
    record b { order = n; lesson_id = some lesson } ∷ push_blocks lesson (n + 1) bs

-- `lessons.filter((l) => l.sectionId === id)`.
unfoldable pub lessons_in : String → List GeneratedLesson → List GeneratedLesson
lessons_in id [] = []
lessons_in id (l ∷ ls) =
    let rest = lessons_in id ls in if str_eq l.section_id id then l ∷ rest else rest

abbrev later : ℕ → ℕ
later zero = 0
later (suc n) = suc (suc n)

-- `indexOf` plus one: 0 for an id that is not there.
unfoldable pub index_of : List String → String → ℕ
index_of [] x = 0
index_of (y ∷ ys) x = if str_eq y x then 1 else later (index_of ys x)

-- A section's lessons in the order of the outline.
unfoldable pub section_lessons : OutlineSection → List GeneratedLesson → List GeneratedLesson
unfolding lessons_in index_of sort_by
section_lessons s ls =
    sort_by (λ (l : GeneratedLesson). index_of s.lesson_ids l.outline_lesson_id)
      (lessons_in s.id ls)

abbrev or_alignment : Option BlockAlignment → Option BlockAlignment → Option BlockAlignment
or_alignment none old = old
or_alignment (some a) old = some a

module _ (parse : ContentParser) where
  -- The transformed lessons of a section, with the blocks pushed from the order `n` on.
  unfoldable pub transform_lessons :
      ℕ → List GeneratedLesson → Option (List Lesson × List CourseBlock)
  unfolding generated_lesson_to_lesson push_blocks
  transform_lessons n [] = some ([], [])
  transform_lessons n (l ∷ ls) = do
    lesson ← generated_lesson_to_lesson parse l
    rest ← transform_lessons (n + length (blocks_in lesson)) ls
    some (lesson ∷ rest.0, push_blocks l.id n (blocks_in lesson) ++ rest.1)

  -- The loop over the outline's sections.
  unfoldable pub transform_sections :
      ℕ
      → List GeneratedLesson
      → List OutlineSection
      → Option (List CourseSection × List CourseBlock)
  unfolding transform_lessons section_lessons
  transform_sections n ls [] = some ([], [])
  transform_sections n ls (s ∷ ss) = do
    here ← transform_lessons n (section_lessons s ls)
    rest ← transform_sections (n + length here.1) ls ss
    some (record { id = s.id; name = s.title; lessons = here.0 } ∷ rest.0, here.1 ++ rest.1)

  unfoldable pub generated_lessons_to_course_content :
      List GeneratedLesson → List OutlineSection → Option (List CourseSection × List CourseBlock)
  unfolding transform_sections
  generated_lessons_to_course_content ls outline = transform_sections 0 ls outline

  -- A regenerated component in the place of a block.
  unfoldable pub transform_regenerated_component :
      LessonComponent → CourseBlock → Option CourseBlock
  unfolding lesson_component_to_course_block
  transform_regenerated_component c b = do
    new ← lesson_component_to_course_block parse c
    some (record new {
      order = b.order;
      alignment = or_alignment new.alignment b.alignment;
      prompt = b.prompt;
    })
