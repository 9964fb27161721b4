-- ===== src/Content/Converts.antt =====
-- When the conversion of generated lessons throws, and when it does not.
use mirai_app.Prelude.{
  ◌≢◌, ℕ, ◌+◌, ◌≡◌, ◌↔◌, refl, String, true, List, [], ◌∷◌, arith, All, length, is_some, str_eq,
  Bool-cases, Option-cases, inl, inr,
}
use mirai_app.Prelude.Sort.{sort_by, All-sort_by}
use mirai_app.Content.Types.{
  Text, LessonComponentType, image, LessonComponent, GeneratedLesson, OutlineSection, broken, null,
  value, ContentParser, quiz, unknown,
}
use mirai_app.Content.Transform.{
  lesson_component_to_course_block, blocks_of, generated_lesson_to_lesson,
}
use mirai_app.Content.Course.{
  blocks_in, lessons_in, index_of, section_lessons, transform_lessons, transform_sections,
  generated_lessons_to_course_content,
}

All-lessons_in :
    (P : GeneratedLesson → Type 0) (id : String) (gs : List GeneratedLesson)
    → All P gs
    → All P (lessons_in id gs)
unfolding lessons_in
All-lessons_in P id [] h = tt
All-lessons_in P id (g ∷ gs) h = elim (Bool-cases (str_eq g.section_id id)) [
  | inl e ↦ rw e (h.0, All-lessons_in P id gs h.1)
  | inr e ↦ rw e (All-lessons_in P id gs h.1)
]

All-section_lessons :
    (P : GeneratedLesson → Type 0) (s : OutlineSection) (gs : List GeneratedLesson)
    → All P gs
    → All P (section_lessons s gs)
unfolding section_lessons
All-section_lessons P s gs h =
    All-sort_by (λ (l : GeneratedLesson). index_of s.lesson_ids l.outline_lesson_id) P
      (lessons_in s.id gs) (All-lessons_in P s.id gs h)

module _ (parse : ContentParser) where
  -- The JSON is not null, and an image's is broken or has a URL and an alternative text.
  abbrev pub IsRenderableAs : LessonComponentType → Text → Type 0
  IsRenderableAs LessonComponentType.text json = parse.parse_text json ≢ null
  IsRenderableAs LessonComponentType.heading json = parse.parse_heading json ≢ null
  IsRenderableAs image json = elim (parse.parse_image json) [
    | broken ↦ Unit
    | null ↦ ⊥
    | value i ↦ (is_some i.url ≡ true) × (is_some i.alt_text ≡ true)
  ]
  IsRenderableAs quiz json = Unit
  IsRenderableAs (unknown n) json = Unit

  abbrev pub IsRenderable : LessonComponent → Type 0
  IsRenderable c = IsRenderableAs c.kind c.content_json

  abbrev pub IsRenderableLesson : GeneratedLesson → Type 0
  IsRenderableLesson g = All IsRenderable g.components

  -- A component converts exactly if it is renderable; else the conversion throws: for a text, a
  -- heading or an image whose JSON is null, and an image that lacks its URL or alternative text.
  pub converts_iff :
      (c : LessonComponent)
      → (is_some (lesson_component_to_course_block parse c) ≡ true) ↔ IsRenderable c
  unfolding lesson_component_to_course_block
  converts_iff c = ground arith

  blocks_convert :
      (cs : List LessonComponent) → All IsRenderable cs → is_some (blocks_of parse cs) ≡ true
  unfolding blocks_of
  blocks_convert [] h = refl
  blocks_convert (c ∷ cs) h = ground (arith, (converts_iff c).1 h.0, blocks_convert cs h.1)

  lesson_converts :
      (g : GeneratedLesson)
      → IsRenderableLesson g
      → is_some (generated_lesson_to_lesson parse g) ≡ true
  unfolding generated_lesson_to_lesson
  lesson_converts g h = ground (
    arith,
    blocks_convert (sort_by (λ (c : LessonComponent). c.order) g.components)
        (All-sort_by (λ (c : LessonComponent). c.order) IsRenderable g.components h),
  )

  lessons_convert :
      (n : ℕ) (gs : List GeneratedLesson)
      → All IsRenderableLesson gs
      → is_some (transform_lessons parse n gs) ≡ true
  unfolding transform_lessons
  lessons_convert n [] h = refl
  lessons_convert n (g ∷ gs) h = elim (Option-cases (generated_lesson_to_lesson parse g)) [
    | inl e ↦ cc (lesson_converts g h.0)
    | inr (l, e) ↦ rw e (ground (arith, lessons_convert (n + length (blocks_in l)) gs h.1))
  ]

  sections_convert :
      (n : ℕ) (gs : List GeneratedLesson) (ss : List OutlineSection)
      → All IsRenderableLesson gs
      → is_some (transform_sections parse n gs ss) ≡ true
  unfolding transform_sections
  sections_convert n gs [] h = refl
  sections_convert n gs (s ∷ ss) h =
      elim (Option-cases (transform_lessons parse n (section_lessons s gs))) [
        | inl e ↦ cc (
            lessons_convert n (section_lessons s gs)
              (All-section_lessons IsRenderableLesson s gs h))
        | inr (here, e) ↦ rw e (ground (arith, sections_convert (n + length here.1) gs ss h))
      ]

  -- Lessons whose components are all renderable convert to a course, whatever the outline.
  pub course_converts :
      (gs : List GeneratedLesson) (outline : List OutlineSection)
      → All IsRenderableLesson gs
      → is_some (generated_lessons_to_course_content parse gs outline) ≡ true
  unfolding generated_lessons_to_course_content
  course_converts gs outline h = sections_convert 0 gs outline h
