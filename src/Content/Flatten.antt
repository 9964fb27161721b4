-- ===== src/Content/Flatten.antt =====
-- The flat list of blocks of a generated course, against the course's sections.
use mirai_app.Prelude.{
  >>=-eq-some, ℕ, ◌+◌, ◌≡◌, refl, ap, ◌∙◌, String, some, List, [], ◌∷◌, ◌++◌, arith, length,
}
use mirai_app.Content.Types.{
  GeneratedLesson, OutlineSection, CourseBlock, Lesson, CourseSection, ContentParser,
}
use mirai_app.Content.Transform.{generated_lesson_to_lesson}
use mirai_app.Content.Course.{
  blocks_in, push_blocks, section_lessons, transform_lessons, transform_sections,
  generated_lessons_to_course_content,
}

-- The blocks of a lesson, with its id; of lessons; of sections.
pub tag : String → List CourseBlock → List CourseBlock
tag id [] = []
tag id (b ∷ bs) = record b { lesson_id = some id } ∷ tag id bs

pub lesson_blocks : List Lesson → List CourseBlock
lesson_blocks [] = []
lesson_blocks (l ∷ ls) = tag l.id (blocks_in l) ++ lesson_blocks ls

pub all_blocks : List CourseSection → List CourseBlock
all_blocks [] = []
all_blocks (s ∷ ss) = lesson_blocks s.lessons ++ all_blocks ss

-- The blocks numbered from n on.
pub number : ℕ → List CourseBlock → List CourseBlock
number n [] = []
number n (b ∷ bs) = record b { order = n } ∷ number (n + 1) bs

number-append :
    (n : ℕ) (xs ys : List CourseBlock)
    → number n (xs ++ ys) ≡ number n xs ++ number (n + length xs) ys
unfolding number
number-append n [] ys = ap (λ k. number k ys) (omega arith)
number-append n (x ∷ xs) ys =
    ap (λ l. record x { order = n } ∷ l)
      (number-append (n + 1) xs ys ∙ ap (λ k. number (n + 1) xs ++ number k ys) (omega arith))

length-number : (n : ℕ) (xs : List CourseBlock) → length (number n xs) ≡ length xs
unfolding number
length-number n [] = refl
length-number n (x ∷ xs) = omega (arith, length-number (n + 1) xs)

length-tag : (id : String) (xs : List CourseBlock) → length (tag id xs) ≡ length xs
unfolding tag
length-tag id [] = refl
length-tag id (x ∷ xs) = omega (arith, length-tag id xs)

push_blocks-number :
    (id : String) (n : ℕ) (bs : List CourseBlock) → push_blocks id n bs ≡ number n (tag id bs)
unfolding push_blocks number tag
push_blocks-number id n [] = refl
push_blocks-number id n (b ∷ bs) = cc (push_blocks-number id (n + 1) bs)

length-push_blocks :
    (id : String) (n : ℕ) (bs : List CourseBlock) → length (push_blocks id n bs) ≡ length bs
unfolding push_blocks
length-push_blocks id n [] = refl
length-push_blocks id n (b ∷ bs) = omega (arith, length-push_blocks id (n + 1) bs)

module _ (parse : ContentParser) where
  lesson_id :
      (g : GeneratedLesson) (l : Lesson) → generated_lesson_to_lesson parse g ≡ some l → l.id ≡ g.id
  unfolding generated_lesson_to_lesson
  lesson_id g l h = ground arith

  lessons_number :
      (n : ℕ) (gs : List GeneratedLesson) (r : List Lesson × List CourseBlock)
      → transform_lessons parse n gs ≡ some r
      → r.1 ≡ number n (lesson_blocks r.0)
  unfolding transform_lessons lesson_blocks number
  lessons_number n [] r h = ground arith
  lessons_number n (g ∷ gs) r h =
      let (l, e, k) = >>=-eq-some (generated_lesson_to_lesson parse g) _ h in
      let (rest, e', k') =
        >>=-eq-some (transform_lessons parse (n + length (blocks_in l)) gs) _ k in
      ground (
        arith,
        lesson_id g l e,
        lessons_number (n + length (blocks_in l)) gs rest e',
        number-append n (tag l.id (blocks_in l)) (lesson_blocks rest.0),
        length-tag l.id (blocks_in l),
        push_blocks-number g.id n (blocks_in l),
      )

  sections_number :
      (n : ℕ) (gs : List GeneratedLesson) (ss : List OutlineSection)
      (r : List CourseSection × List CourseBlock)
      → transform_sections parse n gs ss ≡ some r
      → r.1 ≡ number n (all_blocks r.0)
  unfolding transform_sections all_blocks number
  sections_number n gs [] r h = ground arith
  sections_number n gs (s ∷ ss) r h =
      let (here, e, k) = >>=-eq-some (transform_lessons parse n (section_lessons s gs)) _ h in
      let (rest, e', k') = >>=-eq-some (transform_sections parse (n + length here.1) gs ss) _ k in
      ground (
        arith,
        lessons_number n (section_lessons s gs) here e,
        sections_number (n + length here.1) gs ss rest e',
        number-append n (lesson_blocks here.0) (all_blocks rest.0),
        length-number n (lesson_blocks here.0),
      )

  -- The flat list of a converted course is the blocks of its sections' lessons, in order, each with
  -- its lesson's id, and numbered 0, 1, 2, … across the course.
  pub course_blocks_numbered :
      (gs : List GeneratedLesson) (outline : List OutlineSection)
      (r : List CourseSection × List CourseBlock)
      → generated_lessons_to_course_content parse gs outline ≡ some r
      → r.1 ≡ number 0 (all_blocks r.0)
  unfolding generated_lessons_to_course_content
  course_blocks_numbered gs outline r h = sections_number 0 gs outline r h
