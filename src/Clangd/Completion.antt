-- ===== src/Clangd/Completion.antt =====
-- Completion by clangd: `init`, `handle_event_notification` and `compute_candiatdes` of
-- src/completers/cpp/clangd_completer.cpp. What clangd answers is an argument; starting its process
-- is left out. A line number is at least one, as the source subtracts one from it.
pub mod Laws
pub mod Synced
use Prim.Native.Char.{code}
use Prim.Native.String.{String}
use ycmd_cpp.Base.{
  ℕ, ◌-◌, Bool, true, Option, none, some, List, [], ◌∷◌, map, if◌then◌else◌, Bytes, Dict,
}
use ycmd_cpp.Api
use ycmd_cpp.Api.{FileData, SimpleRequest, EventName, file_ready_to_parse}
use ycmd_cpp.Lsp.Types.{
  TextDocumentPositionParams, plain, markup, CompletionItemKind, CompletionItem,
  CompletionsResponse, item_array, completion_list, ResponseMessage,
}
use ycmd_cpp.Clangd.Sync.{File, Notification, uri, sync_files}

abbrev pub bytes : String → Bytes
bytes String.[] = []
bytes (String.◌∷◌ c s) = code c ∷ bytes s

pub record Completer : Type 0 where
  pub initialised : Bool
  pub opened_files : Dict File

-- `init`, from the response to the request.
unfoldable pub init : {R : Type 0} → Completer → ResponseMessage R → Completer
init completer response = elim response.error [
  | some error ↦ completer
  | none ↦ elim response.result [
    | none ↦ completer
    | some result ↦ record completer { initialised = true }
  ]
]

unfoldable pub kind_name : Option CompletionItemKind → Bytes
kind_name (some CompletionItemKind.text) = bytes "text"
kind_name (some CompletionItemKind.method) = bytes "method"
kind_name (some CompletionItemKind.function) = bytes "function"
kind_name (some CompletionItemKind.constructor) = bytes "constructor"
kind_name (some CompletionItemKind.field) = bytes "field"
kind_name (some CompletionItemKind.variable) = bytes "variable"
kind_name (some CompletionItemKind.class) = bytes "class"
kind_name (some CompletionItemKind.interface) = bytes "interface"
kind_name (some CompletionItemKind.module_kind) = bytes "module"
kind_name (some CompletionItemKind.property) = bytes "property"
kind_name (some CompletionItemKind.unit) = bytes "unit"
kind_name (some CompletionItemKind.value_kind) = bytes "value"
kind_name (some CompletionItemKind.enum) = bytes "enum"
kind_name (some CompletionItemKind.keyword) = bytes "keyword"
kind_name (some CompletionItemKind.snippet) = bytes "snippet"
kind_name (some CompletionItemKind.color) = bytes "color"
kind_name (some CompletionItemKind.file) = bytes "file"
kind_name (some CompletionItemKind.reference) = bytes "reference"
kind_name (some CompletionItemKind.folder) = bytes "folder"
kind_name (some CompletionItemKind.enum_member) = bytes "enum-member"
kind_name (some CompletionItemKind.constant) = bytes "constant"
kind_name (some CompletionItemKind.struct) = bytes "struct"
kind_name (some CompletionItemKind.event) = bytes "event"
kind_name (some CompletionItemKind.operator) = bytes "operator"
kind_name (some CompletionItemKind.type_parameter) = bytes "type-parameter"
kind_name (some (CompletionItemKind.unnamed n)) = bytes "unknown"
kind_name none = bytes "unknown"

unfoldable pub detailed_info : CompletionItem → Bytes
detailed_info item = elim item.documentation [
  | some (plain str) ↦ str
  | some (markup content) ↦ content.value
  | none ↦ elim item.detail [ some detail ↦ detail | none ↦ [] ]
]

unfoldable pub insertion_text : CompletionItem → Bytes
insertion_text item = elim item.text_edit [
  | some edit ↦ edit.new_text
  | none ↦ elim item.insert_text [ some text ↦ text | none ↦ item.label ]
]

unfoldable pub to_candidate : CompletionItem → Api.Candidate
unfolding kind_name detailed_info insertion_text
to_candidate item = record (Api.insertion (insertion_text item)) {
  menu_text = some item.label;
  detailed_info = some (detailed_info item);
  kind = some (kind_name item.kind);
}

unfoldable pub items_of : CompletionsResponse → List CompletionItem
items_of (item_array items) = items
items_of (completion_list items is_incomplete) = items

-- What a call sends: the notifications, and the position of the completion request.
pub record Completion : Type 0 where
  pub completer : Completer
  pub notifications : List Notification
  pub request : Option TextDocumentPositionParams
  pub candidates : List Api.Candidate

-- The candidates that a response gives.
unfoldable pub response_candidates : ResponseMessage CompletionsResponse → List Api.Candidate
unfolding to_candidate items_of
response_candidates response = elim response.error [
  | some error ↦ []
  | none ↦ elim response.result [ none ↦ [] | some result ↦ map to_candidate (items_of result) ]
]

module _ (xxh64 : Bytes → ℕ) where
  -- The event: what is sent, and the files that are open afterwards.
  unfoldable pub handle_event_notification :
      Completer → EventName → SimpleRequest → Completer × List Notification
  unfolding sync_files
  handle_event_notification completer file_ready_to_parse req =
      if completer.initialised
      then (let sent = sync_files xxh64 completer.opened_files req.file_data in
          (record completer { opened_files = sent.0 }, sent.1))
      else (completer, [])
  handle_event_notification completer event req = (completer, [])

  unfoldable pub compute_candidates :
      Completer → SimpleRequest → ℕ → ResponseMessage CompletionsResponse → Completion
  unfolding sync_files response_candidates
  compute_candidates completer req column_codepoint response =
      let sent = sync_files xxh64 completer.opened_files req.file_data in
      if completer.initialised
      then record {
        completer = record completer { opened_files = sent.0 };
        notifications = sent.1;
        request = some (record {
          text_document = uri req.filepath;
          position = record { line = req.line_num - 1; character = column_codepoint - 1 };
        });
        candidates = response_candidates response;
      }
      else record { completer = completer; notifications = []; request = none; candidates = [] }
