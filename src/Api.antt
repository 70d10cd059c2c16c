-- ===== src/Api.antt =====
-- What requests and responses hold: src/api.hpp. A path is its string, a line or column number a
-- natural number; the configuration that a request carries for extensions is left out.
use ycmd_cpp.Base.{ℕ, Bool, Option, none, List, Bytes, Dict}

pub record Location : Type 0 where
  pub line_num : ℕ
  pub column_number : ℕ
  pub filepath : Bytes

pub record Range : Type 0 where
  pub start : Location
  pub end : Location

pub record Chunk : Type 0 where
  pub replacement_text : Bytes
  pub range : Range

pub record FixIt : Type 0 where
  pub text : Bytes
  pub location : Location
  pub resolve : Option Bool
  pub kind : Bytes
  pub chunks : List Chunk

pub record Candidate : Type 0 where
  pub insertion_text : Bytes
  pub menu_text : Option Bytes
  pub extra_menu_info : Option Bytes
  pub detailed_info : Option Bytes
  pub kind : Option Bytes
  pub extra_data : Option Bytes
  pub doc_string : Option Bytes
  pub fixits : Option (List FixIt)

-- A candidate of which nothing is set but the text to insert.
abbrev pub insertion : Bytes → Candidate
insertion text = record {
  insertion_text = text;
  menu_text = none;
  extra_menu_info = none;
  detailed_info = none;
  kind = none;
  extra_data = none;
  doc_string = none;
  fixits = none;
}

pub record FileData : Type 0 where
  pub filetypes : List Bytes
  pub contents : Bytes

pub record SimpleRequest : Type 0 where
  pub line_num : ℕ
  pub column_num : ℕ
  pub filepath : Bytes
  pub file_data : Dict FileData
  pub completer_target : Bytes
  pub working_dir : Bytes

-- `EventNotification::Event`.
pub data EventName : Type 0 where
  file_ready_to_parse : EventName
  file_save : EventName
  buffer_visit : EventName
  buffer_unload : EventName
  insert_leave : EventName
  current_identifier_finished : EventName

pub record Error : Type 0 where
  pub exception : Bytes
  pub message : Bytes
  pub traceback : Bytes

pub record CompletionsResponse : Type 0 where
  pub completions : List Candidate
  pub completion_start_column : ℕ
  pub errors : List Error
