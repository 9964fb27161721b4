-- ===== src/Content/Api.antt =====
-- lib/contentTransform.ts: the format of the API, with numbers for the block types.
use mathlib.Core.Option
use mirai_app.Prelude.{ℕ, String, Option, List, map}
use mirai_app.Content.Types.{
  Text, BlockType, interactive, knowledge_check, CourseBlock, Lesson, CourseSection,
}

-- `blockTypeToProto`.
pub block_type_to_proto : BlockType → ℕ
block_type_to_proto BlockType.heading = 1
block_type_to_proto BlockType.text = 2
block_type_to_proto interactive = 3
block_type_to_proto knowledge_check = 4

pub record ApiBlock : Type 0 where
  pub id : String
  pub kind : ℕ
  pub content : Text
  pub prompt : Option Text
  pub order : ℕ

pub record ApiLesson : Type 0 where
  pub id : String
  pub title : String
  pub content : Option Text
  pub blocks : Option (List ApiBlock)

pub record ApiSection : Type 0 where
  pub id : String
  pub name : String
  pub lessons : List ApiLesson

pub block_to_api_format : CourseBlock → ApiBlock
unfolding block_type_to_proto
block_to_api_format b = record {
  id = b.id;
  kind = block_type_to_proto b.kind;
  content = b.content;
  prompt = b.prompt;
  order = b.order;
}

pub section_to_api_format : CourseSection → ApiSection
unfolding block_to_api_format
section_to_api_format s = record {
  id = s.id;
  name = s.name;
  lessons =
      map
        (λ (l : Lesson). record {
          id = l.id;
          title = l.title;
          content = l.content;
          blocks = Option.map (map block_to_api_format) l.blocks;
        })
        s.lessons;
}

pub to_api_format : List CourseSection × List CourseBlock → List ApiSection × List ApiBlock
unfolding section_to_api_format
to_api_format (sections, blocks) =
    (map section_to_api_format sections, map block_to_api_format blocks)
