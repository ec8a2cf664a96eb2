-- ===== src/Tests/Codex.antt =====
-- A response that streams a word and a tool call.
use dire_agent.Prelude.{◌≡◌, refl, true, none, some, List, [], ◌∷◌, ◌++◌, map, All, if◌then◌else◌}
use dire_agent.Prelude.Text.{Text, codes, text_eq, has_prefix}
use dire_agent.Prelude.Results.{ok}
use dire_agent.Codex.Usage.{CacheCreationUsage, ResponsesUsage}
use dire_agent.Codex.Event.{Response, StreamEvent, Codec, kind_of}
use dire_agent.Codex.Stream.{new_stream, read_response_stream}
use dire_agent.Codex.Answers.{tool_calls, final_text}
use dire_agent.Codex.Blocks.{blocks, message, read_messages}
use dire_agent.Codex.Frames.{read_response_stream-frames}
use dire_agent.Codex.Streamed.{streamed_text, Finished}
use dire_agent.Codex.Deltas.{read_response_stream-Finished}
use dire_agent.Codex.Reply.{IsUsable, tool_calls-IsUsable, texts_in, reply, final_text-reply}

abbrev no_creation : CacheCreationUsage
no_creation = record {
  value = 0;
  tokens = 0;
  input_tokens = 0;
  ephemeral_5m_input_tokens = 0;
  ephemeral_1h_input_tokens = 0;
}

abbrev response_usage : ResponsesUsage
response_usage = record {
  input_tokens = 5;
  output_tokens = 2;
  total_tokens = 7;
  context_window = 100;
  cached_tokens = 3;
  cached_input_tokens = 0;
  cache_read_tokens = 0;
  cache_read_input_tokens = 0;
  cache_write_tokens = 0;
  cache_creation_tokens = 0;
  cache_creation_input_tokens = 0;
  cache_creation = no_creation;
  input_tokens_details = record {
    cached_tokens = 0;
    cached_input_tokens = 0;
    cache_read_tokens = 0;
    cache_read_input_tokens = 0;
    cache_write_tokens = 0;
    cache_creation_tokens = 0;
    cache_creation_input_tokens = 0;
    cache_creation = no_creation;
  };
}

abbrev response : Response
response = record {
  id = codes "r1";
  model = codes "gpt";
  context_window = 0;
  output = [];
  usage = response_usage;
  failure = none;
  incomplete_reason = none;
}

abbrev event : Text → Text → Text → StreamEvent
event kind delta item = record {
  kind = kind;
  delta = delta;
  text = [];
  item = item;
  response = response;
  failure = none;
}

-- One letter stands for each event and for the item.
abbrev codec : Codec
codec = record {
  decode_event = λ text.
      if text_eq text (codes "d")
      then some (event (codes "response.output_text.delta") (codes "hi") [])
      else if text_eq text (codes "i")
      then some (event (codes "response.output_item.done") [] (codes "x"))
      else if text_eq text (codes "c")
      then some (event (codes "response.completed") [] [])
      else none;
  decode_reasoning = λ raw. none;
  decode_call = λ raw. some (record {
    kind = codes "function_call";
    call_id = codes "1";
    name = codes "ls";
    arguments = codes "{}";
  });
  decode_message = λ raw. none;
  valid_json = text_eq (codes "{}");
  to_lower = λ text. text;
  remove_comments = λ text. text;
  without_id = some;
}

abbrev lines : List Text
lines = codes "data: d" ∷ [] ∷ codes "data:i" ∷ [] ∷ codes "data: c" ∷ [] ∷ codes "data: z" ∷ []

lines-read : (read_response_stream codec true none none lines).0 ≡ ok tt
unfolding read_response_stream kind_of text_eq has_prefix
lines-read = refl

read_response_stream-frames_example :
    read_response_stream codec true none none lines
    ≡ read_messages codec true none none
        (map message (blocks lines).0)
        (message (blocks lines).1)
        new_stream
read_response_stream-frames_example = read_response_stream-frames codec true none none lines

read_response_stream-Finished_example :
    Finished codec
      (map message (blocks lines).0 ++ message (blocks lines).1 ∷ [])
      (read_response_stream codec true none none lines).1
read_response_stream-Finished_example =
    read_response_stream-Finished codec none none lines lines-read

json_object : codec.valid_json (codes "{}") ≡ true
unfolding text_eq
json_object = refl

tool_calls-IsUsable_example : All (IsUsable codec) (tool_calls codec (codes "x" ∷ []))
tool_calls-IsUsable_example = tool_calls-IsUsable codec json_object (codes "x" ∷ [])

final_text-reply_example :
    final_text codec (read_response_stream codec true none none lines).1
    ≡ reply
        (texts_in codec
          (codes "final_answer")
          (read_response_stream codec true none none lines).1.items)
        (texts_in codec [] (read_response_stream codec true none none lines).1.items)
        (streamed_text (read_response_stream codec true none none lines).1.events)
final_text-reply_example = final_text-reply codec none none lines lines-read

streamed_hi : final_text codec (read_response_stream codec true none none lines).1 ≡ codes "hi"
unfolding final_text read_response_stream kind_of text_eq has_prefix
streamed_hi = refl
