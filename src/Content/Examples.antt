-- ===== src/Content/Examples.antt =====
-- A generated course of two sections.
use mirai_app.Prelude.{ℕ, ◌≡◌, ◌↔◌, true, Option, none, some, List, [], ◌∷◌, arith, All, is_some}
use mirai_app.Prelude.Js.{units}
use mirai_app.Content.Types.{
  LessonComponentType, image, quiz, LessonComponent, GeneratedLesson, OutlineSection, CourseBlock,
  CourseSection, ContentParser, broken, value,
}
use mirai_app.Content.Transform.{lesson_component_to_course_block, escape_html}
use mirai_app.Content.Course.{generated_lessons_to_course_content}
use mirai_app.Content.Escape.{IsInert, escape_html-IsInert}
use mirai_app.Content.Flatten.{all_blocks, number, course_blocks_numbered}
use mirai_app.Content.Converts.{IsRenderable, converts_iff, course_converts}

-- Every JSON is an image without an alternative text, and no text or heading.
abbrev parse : ContentParser
parse = record {
  parse_text = λ s. broken;
  parse_heading = λ s. broken;
  parse_image = λ s. value (record { url = some s; alt_text = none; caption = none });
}

abbrev component : LessonComponentType → ℕ → LessonComponent
component kind order = record {
  id = "c";
  kind = kind;
  order = order;
  content_json = units "{}";
  alignment = none;
}

abbrev lesson_a : GeneratedLesson
lesson_a = record {
  id = "la";
  section_id = "s1";
  outline_lesson_id = "o1";
  title = "A";
  components = component quiz 2 ∷ component LessonComponentType.text 1 ∷ [];
}

abbrev lesson_b : GeneratedLesson
lesson_b = record {
  id = "lb";
  section_id = "s2";
  outline_lesson_id = "o2";
  title = "B";
  components = component LessonComponentType.heading 1 ∷ [];
}

abbrev outline : List OutlineSection
outline =
    record { id = "s1"; title = "One"; lesson_ids = "o1" ∷ [] }
    ∷ record { id = "s2"; title = "Two"; lesson_ids = "o2" ∷ [] }
    ∷ []

abbrev lessons : List GeneratedLesson
lessons = lesson_b ∷ lesson_a ∷ []

converted : is_some (generated_lessons_to_course_content parse lessons outline) ≡ true
converted = course_converts parse lessons outline (ground arith)

abbrev value_of :
    (o : Option (List CourseSection × List CourseBlock)) → List CourseSection × List CourseBlock
value_of none = ([], [])
value_of (some r) = r

abbrev result : List CourseSection × List CourseBlock
result = value_of (generated_lessons_to_course_content parse lessons outline)

course_blocks_numbered_example : result.1 ≡ number 0 (all_blocks result.0)
course_blocks_numbered_example =
    course_blocks_numbered parse lessons outline result (ground (arith, converted))

converts_iff_example :
    (is_some (lesson_component_to_course_block parse (component image 1)) ≡ true)
    ↔ IsRenderable parse (component image 1)
converts_iff_example = converts_iff parse (component image 1)

escape_html-IsInert_example : All IsInert (escape_html (units "<b>'\"&"))
escape_html-IsInert_example = escape_html-IsInert (units "<b>'\"&")
