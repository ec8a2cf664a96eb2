-- ===== src/McpClient/Collisions.antt =====
-- mcpclient/names.go: which tools share a name.
use dire_agent.Prelude.{◌≡◌, refl, sym, ◌∙◌, false, [], ◌∷◌, ◌++◌, arith, ◌==◌, All}
use mathlib.Core.List.{append_assoc}
use dire_agent.Prelude.Text.{Text}
use dire_agent.Prelude.Results.{ok, >>=-eq-ok}
use dire_agent.McpClient.Names.{
  validate_name, wrap, separator, prefixed, model_name, server_name, tool_name,
}

model_name-prefixed :
    (server tool name : Text) → model_name server tool ≡ ok name → name ≡ prefixed server tool
unfolding model_name
model_name-prefixed server tool name h =
    let (u₁, e₁, h₁) = >>=-eq-ok (wrap server_name (validate_name server)) _ h in
    let (u₂, e₂, h₂) = >>=-eq-ok (wrap tool_name (validate_name tool)) _ h₁ in cc h₂

-- No underscore stands in the name.
abbrev pub Plain : Text → Type 0
Plain s = All (λ c. (c == b'_') ≡ false) s

split-Plain :
    (s s' t t' : Text)
    → Plain s
    → Plain s'
    → s ++ separator ++ t ≡ s' ++ separator ++ t'
    → (s ≡ s') × (t ≡ t')
split-Plain [] [] t t' p p' h = (refl, cc)
split-Plain [] (d ∷ s') t t' p (pd, p') h = absurd (ground arith)
split-Plain (c ∷ s) [] t t' (pc, p) p' h = absurd (ground arith)
split-Plain (c ∷ s) (d ∷ s') t t' (pc, p) (pd, p') h =
    let rest : (s ≡ s') × (t ≡ t') = split-Plain s s' t t' p p' (cc h) in
    let head : c ≡ d = cc h in (cc (head, rest.0), rest.1)

-- Where the names of two servers have no underscore, tools that are given the same name are the same
-- tool of the same server.
pub model_name-injective :
    (s s' t t' name : Text)
    → Plain s
    → Plain s'
    → model_name s t ≡ ok name
    → model_name s' t' ≡ ok name
    → (s ≡ s') × (t ≡ t')
model_name-injective s s' t t' name p p' h h' =
    let same : prefixed s t ≡ prefixed s' t' =
      sym (model_name-prefixed s t name h) ∙ model_name-prefixed s' t' name h' in
    split-Plain s s' t t' p p' (cc same)

-- With underscores names collide: a tool c of a server a__b and a tool b__c of a server a are given
-- the same name, if they are given one.
pub model_name-collides :
    (a b c name other : Text)
    → model_name (a ++ separator ++ b) c ≡ ok name
    → model_name a (b ++ separator ++ c) ≡ ok other
    → name ≡ other
model_name-collides a b c name other h h' =
    let left : name ≡ prefixed (a ++ separator ++ b) c =
      model_name-prefixed (a ++ separator ++ b) c name h in
    let right : other ≡ prefixed a (b ++ separator ++ c) =
      model_name-prefixed a (b ++ separator ++ c) other h' in
    let same : prefixed (a ++ separator ++ b) c ≡ prefixed a (b ++ separator ++ c) =
      simp append_assoc in
    left ∙ same ∙ sym right
