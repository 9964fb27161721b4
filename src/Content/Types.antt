-- ===== src/Content/Types.antt =====
-- The data of lib/contentTransform.ts: the generated lessons, the editor's blocks, and the parsed
-- contents. Texts are lists of UTF-16 code units. `ContentParser` stands for JSON.parse with the
-- casts of the source; a field that the JSON lacks is `none`.
use mirai_app.Prelude.{ℕ, String, Option, List}

abbrev pub Text : Type 0
Text = List ℕ

-- `LessonComponentType`; any other number prints itself.
pub data LessonComponentType : Type 0 where
  text heading image quiz : LessonComponentType
  unknown : ℕ → LessonComponentType

pub record ComponentAlignment : Type 0 where
  pub sme_chunk_ids : List String
  pub learning_objective_ids : List String

pub record LessonComponent : Type 0 where
  pub id : String
  pub kind : LessonComponentType
  pub order : ℕ
  pub content_json : Text
  pub alignment : Option ComponentAlignment

pub record GeneratedLesson : Type 0 where
  pub id : String
  pub section_id : String
  pub outline_lesson_id : String
  pub title : String
  pub components : List LessonComponent

pub record OutlineSection : Type 0 where
  pub id : String
  pub title : String
  pub lesson_ids : List String

-- `BlockType` and the other types of schemas/course.schema.ts.
pub data BlockType : Type 0 where
  heading text interactive knowledge_check : BlockType

pub record BlockAlignment : Type 0 where
  pub personas : List String
  pub learning_objectives : List String
  pub kpis : List String

pub record CourseBlock : Type 0 where
  pub id : String
  pub kind : BlockType
  pub content : Text
  pub prompt : Option Text
  pub alignment : Option BlockAlignment
  pub order : ℕ
  pub lesson_id : Option String

pub record Lesson : Type 0 where
  pub id : String
  pub title : String
  pub content : Option Text
  pub blocks : Option (List CourseBlock)

pub record CourseSection : Type 0 where
  pub id : String
  pub name : String
  pub lessons : List Lesson

-- The parsed contents.
pub record TextContent : Type 0 where
  pub html : Option Text
  pub plaintext : Option Text

pub record HeadingContent : Type 0 where
  pub text : Option Text

pub record ImageContent : Type 0 where
  pub url : Option Text
  pub alt_text : Option Text
  pub caption : Option Text

-- JSON.parse throws, gives null, or gives a value that is read as the source's cast says.
pub data Parsed (A : Type 0) : Type 0 where
  broken null : Parsed A
  value : A → Parsed A

pub record ContentParser : Type 0 where
  pub parse_text : Text → Parsed TextContent
  pub parse_heading : Text → Parsed HeadingContent
  pub parse_image : Text → Parsed ImageContent
