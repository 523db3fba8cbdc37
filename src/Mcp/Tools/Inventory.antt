-- ===== src/Mcp/Tools/Inventory.antt =====
-- mcp/tools.rs: what a finished discovery holds.
use mathlib.Core.Path.{subst}
use ripmcp.Mcp.Protocol.{limit_error, protocol_error, complete}
use mathlib.Core.List.{map-append}
use ripmcp.Base.{
  ℕ, zero, suc, ◌+◌, ◌≤◌, ◌≡◌, Bool, true, false, ◌||◌, not, Option, none, some, List, [], ◌∷◌,
  ◌++◌, map, length, length-append, All, All-append, arith, Bool-cases, inl, inr, ◌&&◌, leb, ltb,
  ◌^◌,
}
use ripmcp.Base.Error.{Result, ok, >>=-eq-ok, ok-injective, is_ok, refuse, refuse-eq-ok, ok_or}
use ripmcp.Base.Order.{list_ord, nat_ord}
use ripmcp.Base.Text.{Text, codes}
use ripmcp.Json.{Value, Items, index, as_array}
use ripmcp.Mcp.Tools.Names.{
  Distinct, Distinct-snoc, absent_of_listed, listed_more, contains_self, apart_more,
}
use ripmcp.Mcp.Tools.{
  Limits, Tool, Walk, Discovery, parse, name, contains, append_tool, append_items, append_tools,
  discover_rounds, discover_tools, input_schema, encode_len, next_cursor,
}

-- The tools' names.
abbrev pub names_of : List Tool → List Text
names_of = map name

leb_room : (limit n : ℕ) → leb limit n ≡ false → suc n ≤ limit
leb_room limit n h = ground arith

-- What `parse` gives is the value that it took.
parse-parse : (value : Value) {tool : Tool} → parse value ≡ ok tool → parse tool ≡ ok tool
unfolding parse
parse-parse value {tool} h =
    let (_, checks, same) = >>=-eq-ok (refuse _ protocol_error) (λ _. ok value) h in
    subst (λ (v : Value). parse v ≡ ok v) (ok-injective same) (rw (refuse-eq-ok _ _ checks))

abbrev start : Walk
start = record { tools = []; rejected_tools = []; names = [] }

module _ (limits : Limits) (is_http : Bool) (annotations : Value → Result (Unit {0})) where
  -- What `append_tool` asks of a tool, and of one that it rejects.
  abbrev pub IsKept : Tool → Type 0
  IsKept tool =
      (parse tool ≡ ok tool) × ((is_http && not (is_ok (annotations (input_schema tool)))) ≡ false)

  pub record IsInventory (w : Walk) : Type 0 where
    pub tools_listed : All (λ n. contains w.names n ≡ true) (names_of w.tools)
    pub rejected_listed : All (λ n. contains w.names n ≡ true) w.rejected_tools
    pub tools_distinct : Distinct (names_of w.tools)
    pub rejected_distinct : Distinct w.rejected_tools
    pub apart : All (λ n. contains w.rejected_tools n ≡ false) (names_of w.tools)
    pub counted : length w.tools + length w.rejected_tools ≡ length w.names
    pub bounded : length w.names ≤ limits.tools
    pub kept : All IsKept w.tools

  keep :
      (tool : Tool) (w : Walk)
      → contains w.names (name tool) ≡ false
      → suc (length w.names) ≤ limits.tools
      → IsKept tool
      → IsInventory w
      → IsInventory (record w { tools = w.tools ++ (tool ∷ []); names = name tool ∷ w.names })
  keep tool w fresh room k i = record {
    tools_listed = rw map-append (
        All-append _ (names_of w.tools) _ (listed_more _ w.names _ i.tools_listed)
          (contains_self (name tool) w.names, tt));
    rejected_listed = listed_more w.rejected_tools w.names _ i.rejected_listed;
    tools_distinct =
        rw map-append
          (Distinct-snoc _ _ i.tools_distinct (absent_of_listed _ w.names _ i.tools_listed fresh));
    rejected_distinct = i.rejected_distinct;
    apart = rw map-append (
        All-append _ (names_of w.tools) _ i.apart
          (absent_of_listed _ w.names _ i.rejected_listed fresh, tt));
    counted = omega (arith, length-append w.tools (tool ∷ []), i.counted);
    bounded = room;
    kept = All-append _ w.tools _ i.kept (k, tt);
  }

  reject :
      (tool : Tool) (w : Walk)
      → contains w.names (name tool) ≡ false
      → suc (length w.names) ≤ limits.tools
      → IsInventory w
      → IsInventory (record w {
        rejected_tools = w.rejected_tools ++ (name tool ∷ []);
        names = name tool ∷ w.names;
      })
  reject tool w fresh room i = record {
    tools_listed = listed_more (names_of w.tools) w.names _ i.tools_listed;
    rejected_listed =
        All-append _ w.rejected_tools _ (listed_more w.rejected_tools w.names _ i.rejected_listed)
          (contains_self (name tool) w.names, tt);
    tools_distinct = i.tools_distinct;
    rejected_distinct =
        Distinct-snoc w.rejected_tools _ i.rejected_distinct
          (absent_of_listed _ w.names _ i.rejected_listed fresh);
    apart = apart_more (names_of w.tools) w.rejected_tools w.names _ i.tools_listed i.apart fresh;
    counted = omega (arith, length-append w.rejected_tools (name tool ∷ []), i.counted);
    bounded = room;
    kept = i.kept;
  }

  append_tool-IsInventory :
      (value : Value) (w : Walk) {w' : Walk}
      → append_tool limits is_http annotations value w ≡ ok w'
      → IsInventory w
      → IsInventory w'
  unfolding append_tool
  append_tool-IsInventory value w {w'} h i =
      let (_, room, k1) = >>=-eq-ok (refuse (leb limits.tools (length w.names)) limit_error) _ h in
      let (tool, parsed, k2) = >>=-eq-ok (parse value) _ k1 in
      let (_, fresh, k3) = >>=-eq-ok (refuse (contains w.names (name tool)) protocol_error) _ k2 in
      let absent = refuse-eq-ok _ _ fresh in
      let below : suc (length w.names) ≤ limits.tools = leb_room _ _ (refuse-eq-ok _ _ room) in
      elim (Bool-cases (is_http && not (is_ok (annotations (input_schema tool))))) [
        | inl bad ↦ subst IsInventory (ok-injective (rw bad at k3)) (reject tool w absent below i)
        | inr good ↦
            subst IsInventory (ok-injective (rw good at k3))
              (keep tool w absent below (parse-parse value parsed, good) i)
      ]

  append_items-IsInventory :
      (values : Items) (w : Walk) {w' : Walk}
      → append_items limits is_http annotations values w ≡ ok w'
      → IsInventory w
      → IsInventory w'
  unfolding append_items
  append_items-IsInventory Items.nil w h i = subst IsInventory (ok-injective h) i
  append_items-IsInventory (Items.cons value values) w h i =
      let (w1, h1, k1) = >>=-eq-ok (append_tool limits is_http annotations value w) _ h in
      append_items-IsInventory values w1 k1 (append_tool-IsInventory value w h1 i)

  append_tools-IsInventory :
      (page : Value) (w : Walk) {w' : Walk}
      → append_tools limits is_http annotations page w ≡ ok w'
      → IsInventory w
      → IsInventory w'
  unfolding append_tools
  append_tools-IsInventory page w h i =
      let (items, _, k1) =
        >>=-eq-ok (ok_or (as_array (index page (codes "tools"))) protocol_error) _ h in
      append_items-IsInventory items w k1 i

  -- No name stands twice among the tools and the rejected tools, there are no more of them than the
  -- limit, and every tool is one that `parse` takes and, over HTTP, one whose annotations are good.
  pub record IsSound (d : Discovery) : Type 0 where
    pub tools_distinct : Distinct (names_of d.tools)
    pub rejected_distinct : Distinct d.rejected_tools
    pub apart : All (λ n. contains d.rejected_tools n ≡ false) (names_of d.tools)
    pub bounded : length d.tools + length d.rejected_tools ≤ limits.tools
    pub kept : All IsKept d.tools

  next_round :
      (next : Option Text) (w : Walk) (rest : Text → Result Walk) {w' : Walk}
      → elim next [ none ↦ ok w | some c ↦ rest c ] ≡ ok w'
      → IsInventory w
      → ((c : Text) → rest c ≡ ok w' → IsInventory w')
      → IsInventory w'
  next_round none w rest h i more = subst IsInventory (ok-injective h) i
  next_round (some c) w rest h i more = more c h

  start-IsInventory : IsInventory start
  start-IsInventory = record {
    tools_listed = tt;
    rejected_listed = tt;
    tools_distinct = tt;
    rejected_distinct = tt;
    apart = tt;
    counted = omega arith;
    bounded = omega arith;
    kept = tt;
  }

  module _ (request : ℕ → Option Text → Result Value) (encoded_len : Value → ℕ)
      (remaining : ℕ → Result (Unit {0})) where
    discover_rounds-IsInventory :
        (left round : ℕ) (cursor : Option Text) (cursors : List Text) (bytes : ℕ) (w : Walk)
        {w' : Walk}
        → discover_rounds limits is_http annotations request encoded_len remaining left round cursor
            cursors bytes w
          ≡ ok w'
        → IsInventory w
        → IsInventory w'
    unfolding discover_rounds
    discover_rounds-IsInventory zero round cursor cursors bytes w h i = cc
    discover_rounds-IsInventory (suc left) round cursor cursors bytes w {w'} h i =
        let (page, h1, k1) = >>=-eq-ok (request round cursor) _ h in
        let (_, h2, k2) = >>=-eq-ok (complete page) _ k1 in
        let (size, h3, k3) =
          >>=-eq-ok (encode_len limits is_http annotations request encoded_len remaining page) _
            k2 in
        let (_, h4, k4) =
          >>=-eq-ok
            (refuse (leb (2 ^ 64) (bytes + size) || ltb limits.discovery_bytes (bytes + size))
              limit_error)
            _ k3 in
        let (w1, h5, k5) = >>=-eq-ok (append_tools limits is_http annotations page w) _ k4 in
        let (_, h6, k6) = >>=-eq-ok (remaining round) _ k5 in
        let (next, h7, k7) =
          >>=-eq-ok
            (next_cursor limits is_http annotations request encoded_len remaining page cursors) _
            k6 in
        next_round next w1 _ k7 (append_tools-IsInventory page w h5 i) (λ c e.
          discover_rounds-IsInventory left (round + 1) (some c) (c ∷ cursors) (bytes + size) w1 e
            (append_tools-IsInventory page w h5 i))

    -- Whatever the server answers, a discovery that succeeds is sound: no name stands twice among
    -- the
    -- tools or among the rejected tools, none is in both, there are no more of them together than
    -- the
    -- limit, and every tool is one that `parse` takes and, over HTTP, one with good annotations.
    pub discover_tools-IsSound :
        {d : Discovery}
        → discover_tools limits is_http annotations request encoded_len remaining ≡ ok d
        → IsSound d
    unfolding discover_tools
    discover_tools-IsSound {d} h =
        let (w, h1, k1) =
          >>=-eq-ok
            (discover_rounds limits is_http annotations request encoded_len remaining limits.pages 0
              none [] 0 start)
            _ h in
        let i = discover_rounds-IsInventory limits.pages 0 none [] 0 start h1 start-IsInventory in
        subst IsSound (ok-injective k1) (record {
          tools_distinct = i.tools_distinct;
          rejected_distinct = i.rejected_distinct;
          apart = i.apart;
          bounded = omega (arith, i.counted, i.bounded);
          kept = i.kept;
        })
