-- ===== src/Lsp/Types.antt =====
-- The messages of completion: src/lsp/lsp_types.hpp. The free-form values that a message may carry
-- are left out, as nothing reads them.
use ycmd_cpp.Base.{ℕ, Bool, Option, List, Bytes}

pub record Position : Type 0 where
  pub line : ℕ
  pub character : ℕ

pub record Range : Type 0 where
  pub start : Position
  pub end : Position

pub record TextDocumentPositionParams : Type 0 where
  pub text_document : Bytes
  pub position : Position

pub record TextEdit : Type 0 where
  pub new_text : Bytes
  pub range : Range

pub record Command : Type 0 where
  pub title : Bytes
  pub command : Bytes

pub record MarkupContent : Type 0 where
  pub kind : ℕ
  pub value : Bytes

-- A string or marked-up content.
pub data Documentation : Type 0 where
  plain : Bytes → Documentation
  markup : MarkupContent → Documentation

-- The enumerators, and any other number, which the conversion from a message lets through.
pub data CompletionItemKind : Type 0 where
  text : CompletionItemKind
  method : CompletionItemKind
  function : CompletionItemKind
  constructor : CompletionItemKind
  field : CompletionItemKind
  variable : CompletionItemKind
  class : CompletionItemKind
  interface : CompletionItemKind
  module_kind : CompletionItemKind
  property : CompletionItemKind
  unit : CompletionItemKind
  value_kind : CompletionItemKind
  enum : CompletionItemKind
  keyword : CompletionItemKind
  snippet : CompletionItemKind
  color : CompletionItemKind
  file : CompletionItemKind
  reference : CompletionItemKind
  folder : CompletionItemKind
  enum_member : CompletionItemKind
  constant : CompletionItemKind
  struct : CompletionItemKind
  event : CompletionItemKind
  operator : CompletionItemKind
  type_parameter : CompletionItemKind
  unnamed : ℕ → CompletionItemKind

pub record CompletionItem : Type 0 where
  pub label : Bytes
  pub kind : Option CompletionItemKind
  pub detail : Option Bytes
  pub documentation : Option Documentation
  pub deprecated : Option Bool
  pub preselect : Option Bool
  pub sort_text : Option Bytes
  pub filter_text : Option Bytes
  pub insert_text : Option Bytes
  pub insert_text_format : Option ℕ
  pub text_edit : Option TextEdit
  pub additional_text_edits : Option (List TextEdit)
  pub commit_characters : Option Bytes
  pub command : Option Command

pub data CompletionsResponse : Type 0 where
  item_array : List CompletionItem → CompletionsResponse
  completion_list : List CompletionItem → Bool → CompletionsResponse

-- An error code has a sign.
pub data ℤ : Type 0 where
  pos : ℕ → ℤ
  negsuc : ℕ → ℤ

pub record ResponseError : Type 0 where
  pub code : ℤ
  pub message : Bytes

pub record ResponseMessage (R : Type 0) : Type 0 where
  pub result : Option R
  pub error : Option ResponseError
