-- ===== src/Content/Transform.antt =====
-- lib/contentTransform.ts: one component becomes a block, one lesson a lesson of the editor.
use mirai_app.Prelude.{
  ◌>>=◌, ℕ, zero, suc, ◌+◌, ◌/◌, ◌%◌, Option, none, some, List, [], ◌∷◌, ◌++◌, nat_eq, ltb,
  if◌then◌else◌,
}
use mirai_app.Prelude.Js.{units}
use mirai_app.Prelude.Sort.{sort_by}
use mirai_app.Content.Types.{
  Text, LessonComponentType, image, quiz, unknown, ComponentAlignment, LessonComponent,
  GeneratedLesson, BlockType, knowledge_check, BlockAlignment, CourseBlock, Lesson, TextContent,
  ImageContent, Parsed, broken, null, value, ContentParser,
}

-- `transformAlignment`.
unfoldable pub transform_alignment : Option ComponentAlignment → Option BlockAlignment
transform_alignment none = none
transform_alignment (some a) =
    some (record { personas = []; learning_objectives = a.learning_objective_ids; kpis = [] })

-- `s || rest` on texts that may be undefined.
abbrev or_else : Option Text → Text → Text
or_else none rest = rest
or_else (some []) rest = rest
or_else (some (c ∷ cs)) rest = c ∷ cs

-- `escapeHtml`.
unfoldable pub html_escape : ℕ → Text
unfolding units
html_escape c =
    if nat_eq c 38
    then units "&amp;"
    else if nat_eq c 60
    then units "&lt;"
    else if nat_eq c 62
    then units "&gt;"
    else if nat_eq c 34
    then units "&quot;"
    else if nat_eq c 39
    then units "&#39;"
    else c ∷ []

unfoldable pub escape_html : Text → Text
unfolding html_escape
escape_html [] = []
escape_html (c ∷ cs) = html_escape c ++ escape_html cs

-- The caption's element, if there is a caption.
figcaption : Option Text → Text
unfolding escape_html units
figcaption none = []
figcaption (some []) = []
figcaption (some (c ∷ cs)) =
    units "<figcaption class=\"text-sm text-gray-500 mt-2 text-center\">"
    ++ (escape_html (c ∷ cs) ++ units "</figcaption>")

-- The HTML of an image; escaping an undefined text throws.
unfoldable pub figure_html : ImageContent → Option Text
unfolding figcaption
figure_html content = do
  url ← content.url
  alt ← content.alt_text
  some (
      units "<figure class=\"my-4\">\n        <img src=\""
      ++ (escape_html url
          ++ (units "\" alt=\""
              ++ (escape_html alt
                  ++ (units "\" class=\"max-w-full rounded-lg\" />\n        "
                      ++ (figcaption content.caption ++ units "\n      </figure>"))))))

-- A number in decimal.
decimal_digits : ℕ → ℕ → Text → Text
decimal_digits zero n acc = acc
decimal_digits (suc f) n acc =
    let d = (48 + n % 10) ∷ acc in
    let rest = decimal_digits f (n / 10) d in if ltb n 10 then d else rest

decimal : ℕ → Text
unfolding decimal_digits
decimal n = decimal_digits (suc n) n []

-- `parseContentJson`; reading a field of its null throws.
abbrev parsed_or : {A : Type 0} → Parsed A → A → Option A
parsed_or broken d = some d
parsed_or null d = none
parsed_or (value a) d = some a

-- A block of a component, before the kind and the content are known.
abbrev base_block : LessonComponent → BlockType → Text → CourseBlock
base_block c kind content = record {
  id = c.id;
  kind = kind;
  content = content;
  prompt = none;
  alignment = transform_alignment c.alignment;
  order = c.order;
  lesson_id = none;
}

abbrev pub text_of : TextContent → Text
text_of t = or_else t.html (or_else t.plaintext [])

abbrev pub image_of : Parsed ImageContent → Option ImageContent
image_of o = parsed_or o (record { url = some []; alt_text = some []; caption = none })

module _ (parse : ContentParser) where
  -- The `switch` of `lessonComponentToCourseBlock`; `none` is a TypeError.
  unfoldable pub to_block : LessonComponentType → LessonComponent → Option CourseBlock
  unfolding figure_html transform_alignment decimal
  to_block LessonComponentType.text c = do
    t ← parsed_or (parse.parse_text c.content_json) (record { html = some []; plaintext = some [] })
    some (base_block c BlockType.text (text_of t))
  to_block LessonComponentType.heading c = do
    h ← parsed_or (parse.parse_heading c.content_json) (record { text = some [] })
    some (base_block c BlockType.heading (or_else h.text []))
  to_block image c = do
    i ← image_of (parse.parse_image c.content_json)
    html ← figure_html i
    some (base_block c BlockType.text html)
  to_block quiz c = some (base_block c knowledge_check c.content_json)
  to_block (unknown n) c =
      some (
        base_block c BlockType.text (units "[Unknown component type: " ++ (decimal n ++ units "]")))

  unfoldable pub lesson_component_to_course_block : LessonComponent → Option CourseBlock
  unfolding to_block
  lesson_component_to_course_block c = to_block c.kind c

  -- `map` with a function that may throw.
  unfoldable pub blocks_of : List LessonComponent → Option (List CourseBlock)
  blocks_of [] = some []
  blocks_of (c ∷ cs) =
      let rest = blocks_of cs in
      (do b ← lesson_component_to_course_block c; bs ← rest; some (b ∷ bs))

  unfoldable pub generated_lesson_to_lesson : GeneratedLesson → Option Lesson
  unfolding blocks_of sort_by
  generated_lesson_to_lesson l = do
    bs ← blocks_of (sort_by (λ (c : LessonComponent). c.order) l.components)
    some (record { id = l.id; title = l.title; content = none; blocks = some bs })
