-- ===== src/Clangd/Completion/Laws.antt =====
-- The names of the kinds of completion items.
use ycmd_cpp.Base.{
  ◌≡◌, refl, Bool, true, false, Option, none, some, List, [], ◌∷◌, if◌then◌else◌, Bytes, bytes_eq,
}
use ycmd_cpp.Lsp.Types.{CompletionItemKind}
use ycmd_cpp.Clangd.Completion.{kind_name}

-- The enumerators of the protocol.
abbrev pub kinds : List CompletionItemKind
kinds =
    CompletionItemKind.text ∷ CompletionItemKind.method ∷ CompletionItemKind.function
    ∷ CompletionItemKind.constructor ∷ CompletionItemKind.field ∷ CompletionItemKind.variable
    ∷ CompletionItemKind.class ∷ CompletionItemKind.interface ∷ CompletionItemKind.module_kind
    ∷ CompletionItemKind.property ∷ CompletionItemKind.unit ∷ CompletionItemKind.value_kind
    ∷ CompletionItemKind.enum ∷ CompletionItemKind.keyword ∷ CompletionItemKind.snippet
    ∷ CompletionItemKind.color ∷ CompletionItemKind.file ∷ CompletionItemKind.reference
    ∷ CompletionItemKind.folder ∷ CompletionItemKind.enum_member ∷ CompletionItemKind.constant
    ∷ CompletionItemKind.struct ∷ CompletionItemKind.event ∷ CompletionItemKind.operator
    ∷ CompletionItemKind.type_parameter ∷ []

abbrev pub is_named : CompletionItemKind → Bool
is_named CompletionItemKind.text = true
is_named CompletionItemKind.method = true
is_named CompletionItemKind.function = true
is_named CompletionItemKind.constructor = true
is_named CompletionItemKind.field = true
is_named CompletionItemKind.variable = true
is_named CompletionItemKind.class = true
is_named CompletionItemKind.interface = true
is_named CompletionItemKind.module_kind = true
is_named CompletionItemKind.property = true
is_named CompletionItemKind.unit = true
is_named CompletionItemKind.value_kind = true
is_named CompletionItemKind.enum = true
is_named CompletionItemKind.keyword = true
is_named CompletionItemKind.snippet = true
is_named CompletionItemKind.color = true
is_named CompletionItemKind.file = true
is_named CompletionItemKind.reference = true
is_named CompletionItemKind.folder = true
is_named CompletionItemKind.enum_member = true
is_named CompletionItemKind.constant = true
is_named CompletionItemKind.struct = true
is_named CompletionItemKind.event = true
is_named CompletionItemKind.operator = true
is_named CompletionItemKind.type_parameter = true
is_named (CompletionItemKind.unnamed n) = false

-- The first kind in a list that has the name.
unfoldable pub kind_with_name : Bytes → List CompletionItemKind → Option CompletionItemKind
unfolding kind_name bytes_eq
kind_with_name name [] = none
kind_with_name name (kind ∷ others) =
    if bytes_eq (kind_name (some kind)) name then some kind else kind_with_name name others

-- The name of an enumerator belongs to it alone among the enumerators, and the name of any other
-- number to none of them.
pub kind_with_name-kind_name :
    (kind : CompletionItemKind)
    → kind_with_name (kind_name (some kind)) kinds ≡ (if is_named kind then some kind else none)
unfolding kind_with_name
kind_with_name-kind_name CompletionItemKind.text = refl
kind_with_name-kind_name CompletionItemKind.method = refl
kind_with_name-kind_name CompletionItemKind.function = refl
kind_with_name-kind_name CompletionItemKind.constructor = refl
kind_with_name-kind_name CompletionItemKind.field = refl
kind_with_name-kind_name CompletionItemKind.variable = refl
kind_with_name-kind_name CompletionItemKind.class = refl
kind_with_name-kind_name CompletionItemKind.interface = refl
kind_with_name-kind_name CompletionItemKind.module_kind = refl
kind_with_name-kind_name CompletionItemKind.property = refl
kind_with_name-kind_name CompletionItemKind.unit = refl
kind_with_name-kind_name CompletionItemKind.value_kind = refl
kind_with_name-kind_name CompletionItemKind.enum = refl
kind_with_name-kind_name CompletionItemKind.keyword = refl
kind_with_name-kind_name CompletionItemKind.snippet = refl
kind_with_name-kind_name CompletionItemKind.color = refl
kind_with_name-kind_name CompletionItemKind.file = refl
kind_with_name-kind_name CompletionItemKind.reference = refl
kind_with_name-kind_name CompletionItemKind.folder = refl
kind_with_name-kind_name CompletionItemKind.enum_member = refl
kind_with_name-kind_name CompletionItemKind.constant = refl
kind_with_name-kind_name CompletionItemKind.struct = refl
kind_with_name-kind_name CompletionItemKind.event = refl
kind_with_name-kind_name CompletionItemKind.operator = refl
kind_with_name-kind_name CompletionItemKind.type_parameter = refl
kind_with_name-kind_name (CompletionItemKind.unnamed n) = refl
