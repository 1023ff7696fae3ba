-- ===== src/Element/Message.antt =====
-- The message objects of protocol/element3.py: a constructor for each class, with its slots.
use pg_cluster.Base.{Bytes, List, Option, ℕ}
use pg_cluster.Base.Int.{ℤ}
use pg_cluster.Element.Class.{Class}

-- One column of a TupleDescriptor: (name, relationId, columnNumber, typeId, typlen, typmod, format).
pub record Column : Type 0 where
  pub name : Bytes
  pub relation_id : ℕ
  pub column_number : ℤ
  pub type_id : ℕ
  pub typlen : ℤ
  pub typmod : ℤ
  pub format : ℤ

-- An attribute of a row: NULL is `None`.
abbrev pub Datum : Type 0
Datum = Option Bytes

-- The items of a dictionary message, in the order of the dictionary.
abbrev pub Items : Type 0
Items = List (Bytes × Datum)

pub data Message : Type 0 where
  notify : ℕ → Bytes → Bytes → Message
  show_option : Bytes → Bytes → Message
  complete : Bytes → Message
  null no_data parse_complete bind_complete close_complete suspension : Message
  ready : Bytes → Message
  notice : Items → Message
  error : Items → Message
  function_result : Datum → Message
  attribute_types : List ℕ → Message
  tuple_descriptor : List Column → Message
  tuple : List Datum → Message
  kill_information : ℕ → ℕ → Message
  cancel_request : ℕ → ℕ → Message
  negotiate_ssl : Message
  startup : Items → Message
  authentication : ℕ → Bytes → Message
  password : Bytes → Message
  disconnect flush synchronize : Message
  query : Bytes → Message
  parse_statement : Bytes → Bytes → List ℕ → Message
  bind : Bytes → Bytes → List Bytes → List Datum → List Bytes → Message
  execute : Bytes → ℕ → Message
  describe_statement : Bytes → Message
  describe_portal : Bytes → Message
  close_statement : Bytes → Message
  close_portal : Bytes → Message
  function : ℕ → List Bytes → List Datum → Bytes → Message
  copy_to_begin : ℕ → List ℕ → Message
  copy_from_begin : ℕ → List ℕ → Message
  copy_data : Bytes → Message
  copy_fail : Bytes → Message
  copy_done : Message

-- `type(m)`
unfoldable pub class_of : Message → Class
class_of (notify p c l) = Class.notify
class_of (show_option n v) = Class.show_option
class_of (complete d) = Class.complete
class_of null = Class.null
class_of no_data = Class.no_data
class_of parse_complete = Class.parse_complete
class_of bind_complete = Class.bind_complete
class_of close_complete = Class.close_complete
class_of suspension = Class.suspension
class_of (ready d) = Class.ready
class_of (notice d) = Class.notice
class_of (error d) = Class.error
class_of (function_result d) = Class.function_result
class_of (attribute_types d) = Class.attribute_types
class_of (tuple_descriptor d) = Class.tuple_descriptor
class_of (tuple d) = Class.tuple
class_of (kill_information p k) = Class.kill_information
class_of (cancel_request p k) = Class.cancel_request
class_of negotiate_ssl = Class.negotiate_ssl
class_of (startup d) = Class.startup
class_of (authentication r s) = Class.authentication
class_of (password d) = Class.password
class_of disconnect = Class.disconnect
class_of flush = Class.flush
class_of synchronize = Class.synchronize
class_of (query d) = Class.query
class_of (parse_statement n s a) = Class.parse
class_of (bind n s a d r) = Class.bind
class_of (execute n m) = Class.execute
class_of (describe_statement d) = Class.describe_statement
class_of (describe_portal d) = Class.describe_portal
class_of (close_statement d) = Class.close_statement
class_of (close_portal d) = Class.close_portal
class_of (function o f a r) = Class.function
class_of (copy_to_begin f d) = Class.copy_to_begin
class_of (copy_from_begin f d) = Class.copy_from_begin
class_of (copy_data d) = Class.copy_data
class_of (copy_fail d) = Class.copy_fail
class_of copy_done = Class.copy_done

-- What `parse` returns: an instance of a class, or the plain tuple that `Tuple.parse` gives.
pub data Parsed : Type 0 where
  element_of : Message → Parsed
  plain_tuple : List Datum → Parsed
