-- ===== src/Tickets/Errors.antt =====
-- The exceptions of src/devlegate/tickets.py. A constructor stands for a message.
use devlegate.Prelude.{String, List}

pub data TicketError : Type 0 where
  missing_opening missing_closing empty_body : TicketError
  bad_filename invalid_metadata : TicketError
  unknown_key missing_key : String → TicketError
  bad_type bad_title unreadable_title : TicketError
  empty_dependencies non_text_dependency duplicate_dependencies : TicketError
  invalid_dependency : String → TicketError
  self_dependency : TicketError
  not_a_directory invalid_entry : TicketError
  duplicate_ticket : String → TicketError
  missing_dependency : String → String → TicketError
  dependency_cycle : List String → TicketError
  -- A `KeyError`, and a recursion deeper than there are tickets: neither is met.
  key_error too_deep : TicketError
