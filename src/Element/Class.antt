-- ===== src/Element/Class.antt =====
-- The message classes of protocol/element3.py with their `type` bytes.
use pg_cluster.Base.{Bytes, [], ◌∷◌}

pub data Class : Type 0 where
  notify show_option complete null no_data parse_complete bind_complete close_complete : Class
  suspension ready notice error function_result attribute_types tuple_descriptor tuple : Class
  kill_information cancel_request negotiate_ssl startup authentication password : Class
  disconnect flush synchronize query parse bind execute describe_statement : Class
  describe_portal close_statement close_portal function copy_to_begin copy_from_begin : Class
  copy_data copy_fail copy_done : Class

-- The attribute `type` of each class; `b''` is the empty list.
unfoldable pub type_of : Class → Bytes
type_of Class.notify = b'A' ∷ []
type_of Class.show_option = b'S' ∷ []
type_of Class.complete = b'C' ∷ []
type_of Class.null = b'I' ∷ []
type_of Class.no_data = b'n' ∷ []
type_of Class.parse_complete = b'1' ∷ []
type_of Class.bind_complete = b'2' ∷ []
type_of Class.close_complete = b'3' ∷ []
type_of Class.suspension = b's' ∷ []
type_of Class.ready = b'Z' ∷ []
type_of Class.notice = b'N' ∷ []
type_of Class.error = b'E' ∷ []
type_of Class.function_result = b'V' ∷ []
type_of Class.attribute_types = b't' ∷ []
type_of Class.tuple_descriptor = b'T' ∷ []
type_of Class.tuple = b'D' ∷ []
type_of Class.kill_information = b'K' ∷ []
type_of Class.cancel_request = []
type_of Class.negotiate_ssl = []
type_of Class.startup = []
type_of Class.authentication = b'R' ∷ []
type_of Class.password = b'p' ∷ []
type_of Class.disconnect = b'X' ∷ []
type_of Class.flush = b'H' ∷ []
type_of Class.synchronize = b'S' ∷ []
type_of Class.query = b'Q' ∷ []
type_of Class.parse = b'P' ∷ []
type_of Class.bind = b'B' ∷ []
type_of Class.execute = b'E' ∷ []
type_of Class.describe_statement = b'D' ∷ []
type_of Class.describe_portal = b'D' ∷ []
type_of Class.close_statement = b'C' ∷ []
type_of Class.close_portal = b'C' ∷ []
type_of Class.function = b'F' ∷ []
type_of Class.copy_to_begin = b'H' ∷ []
type_of Class.copy_from_begin = b'G' ∷ []
type_of Class.copy_data = b'd' ∷ []
type_of Class.copy_fail = b'f' ∷ []
type_of Class.copy_done = b'c' ∷ []

-- `subtype` of the Describe and Close classes: statement and portal.
abbrev pub statement_subtype : Bytes
statement_subtype = b'S' ∷ []

abbrev pub portal_subtype : Bytes
portal_subtype = b'P' ∷ []

-- `version.bytes()` of CancelRequestCode (1234, 5678), NegotiateSSLCode (1234, 5679) and V3_0.
abbrev pub cancel_version : Bytes
cancel_version = 4 ∷ 210 ∷ 22 ∷ 46 ∷ []

abbrev pub ssl_version : Bytes
ssl_version = 4 ∷ 210 ∷ 22 ∷ 47 ∷ []

abbrev pub startup_version : Bytes
startup_version = 0 ∷ 3 ∷ 0 ∷ 0 ∷ []
