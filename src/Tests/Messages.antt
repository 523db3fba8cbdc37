-- ===== src/Tests/Messages.antt =====
-- The client on concrete answers of a server.
use ripmcp.Base.{sym, none, ◌≤◌, ℕ, Bool, true, ◌≡◌, refl, Option, [], ◌∷◌, ◌++◌, some, arith, List}
use ripmcp.Base.Error.{Result, ok}
use ripmcp.Base.Text.{Text, codes}
use ripmcp.Json.{Value, Items, Fields, get, index}
use ripmcp.Mcp.Protocol.{Message, notification, complete}
use ripmcp.Mcp.Sse.{new, feed}
use ripmcp.Mcp.Sse.Answers.{IsAnswer, feed_chunks-sent}
use ripmcp.Mcp.Sse.Chunks.{feed_chunks}
use ripmcp.Mcp.Sse.Sent.{Ending, joined}
use ripmcp.Mcp.Sse.Bounds.{IsBounded, feed-IsBounded}
use ripmcp.Mcp.Tools.{
  Limits, Discovery, discover_rounds, encode_len, append_tools, append_items, append_tool, parse,
  next_cursor, discover_tools,
}
use ripmcp.Mcp.Tools.Inventory.{IsSound, discover_tools-IsSound}
use ripmcp.Mcp.Calls.{Environment, call_tool_checked}
use ripmcp.Mcp.Calls.Traces.{IsOrderly, count_requests, call_tool_checked-IsOrderly}
use ripmcp.Config.Url.{UrlCrate}
use ripmcp.Mcp.Tools.{name}
use ripmcp.Supervisor.Wire.{write_limit, read_limit, big_endian}
use ripmcp.Supervisor.Wire.Frames.{read_limit-write_limit}
use ripmcp.Storage.Transaction.{Bytes}

abbrev is_utf8 : Bytes → Bool
is_utf8 bytes = true

abbrev only_notifications : Bytes → Result Message
only_notifications bytes = ok notification

-- "data: {}", a line feed
abbrev first : Bytes
first = codes "data: {}" ++ (10 ∷ [])

abbrev second : Bytes
second = 10 ∷ codes ": x"

-- "{" and "}" on a line each, cut between a carriage return and its line feed
abbrev two_chunks : List Bytes
two_chunks =
    (codes "data: {" ++ (13 ∷ []))
    ∷ ((10 ∷ []) ++ (codes "data: }" ++ (13 ∷ 10 ∷ 13 ∷ 10 ∷ [])))
    ∷ []

feed_chunks-sent_example :
    IsAnswer
      (codes "1")
      (only_notifications (joined (codes "{" ∷ codes "}" ∷ [])))
      (feed_chunks is_utf8 only_notifications (codes "1") two_chunks (new 100)).0
feed_chunks-sent_example =
    feed_chunks-sent is_utf8 only_notifications (codes "1") 100 Ending.crlf (codes "{")
      (codes "}" ∷ []) two_chunks refl refl (((refl, tt), refl), (((refl, tt), refl), tt))
      (omega arith) (omega arith)

feed-IsBounded_example :
    IsBounded 12 (feed is_utf8 only_notifications (codes "1") (first ++ second) (new 12)).1
feed-IsBounded_example = feed-IsBounded is_utf8 only_notifications (codes "1") 12 (first ++ second)

abbrev tool : Value
tool = Value.object (
    Fields.field (codes "inputSchema")
      (Value.object (Fields.field (codes "type") (Value.string (codes "object")) Fields.end))
      (Fields.field (codes "name") (Value.string (codes "echo")) Fields.end))

abbrev page : Value
page = Value.object (
    Fields.field (codes "resultType") (Value.string (codes "complete"))
      (Fields.field (codes "tools") (Value.array (Items.cons tool Items.nil)) Fields.end))

abbrev limits : Limits
limits = record { frame_bytes = 1000; discovery_bytes = 1000; tools = 10; pages = 3; in_flight = 4 }

abbrev no_annotations : Value → Result (Unit {0})
no_annotations schema = ok tt

abbrev one_page : ℕ → Option Text → Result Value
one_page round cursor = ok page

abbrev length_of : Value → ℕ
length_of value = 60

abbrev in_time : ℕ → Result (Unit {0})
in_time round = ok tt

abbrev echo_only : Discovery
echo_only = record { tools = tool ∷ []; rejected_tools = [] }

finds_echo : discover_tools limits true no_annotations one_page length_of in_time ≡ ok echo_only
unfolding discover_tools discover_rounds complete get index encode_len append_tools append_items
    append_tool parse next_cursor
finds_echo = refl

discover_tools-IsSound_example : IsSound limits true no_annotations echo_only
discover_tools-IsSound_example =
    discover_tools-IsSound limits true no_annotations one_page length_of in_time {d = echo_only}
      finds_echo

abbrev no_urls : UrlCrate
no_urls = record {
  Url = Text;
  parse = λ url. none;
  scheme = λ url. url;
  host_str = λ url. none;
  username = λ url. [];
  password = λ url. none;
  query = λ url. none;
  fragment = λ url. none;
}

-- Always asks for input again.
abbrev asking : Environment
asking = record {
  interactive = true;
  recheck = λ trace. ok tt;
  request = λ trace params. ok (
      Value.object
        (Fields.field (codes "resultType") (Value.string (codes "input_required")) Fields.end));
  remaining = λ trace. ok tt;
  present = λ trace p. ok tt;
}

call_tool_checked-IsOrderly_example :
    IsOrderly no_urls
      (name tool)
      (Value.object Fields.end)
      (call_tool_checked no_urls asking (ok tt) tool (Value.object Fields.end) []).1
    × (count_requests (call_tool_checked no_urls asking (ok tt) tool (Value.object Fields.end) []).1
        ≤ 16)
call_tool_checked-IsOrderly_example =
    call_tool_checked-IsOrderly no_urls asking (ok tt) tool (Value.object Fields.end)

abbrev to_vec : Text → Option Bytes
to_vec = some

abbrev accept_all : Bytes → Result (Unit {0})
accept_all bytes = ok tt

ping_frame : write_limit to_vec accept_all (codes "ping") 4096 ≡ ok (0 ∷ 0 ∷ 0 ∷ 4 ∷ codes "ping")
unfolding write_limit big_endian
ping_frame = refl

read_limit-write_limit_example :
    read_limit some ((0 ∷ 0 ∷ 0 ∷ 4 ∷ codes "ping") ++ (1 ∷ [])) 4096 ≡ ok (codes "ping", 1 ∷ [])
read_limit-write_limit_example =
    read_limit-write_limit to_vec some accept_all (codes "ping") 4096 (1 ∷ []) (omega arith)
      (λ bytes e. sym e) ping_frame
