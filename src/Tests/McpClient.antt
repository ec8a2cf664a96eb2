-- ===== src/Tests/McpClient.antt =====
-- Names of tools of two servers.
use dire_agent.Prelude.{◌≡◌, refl, ◌++◌}
use dire_agent.Prelude.Text.{codes}
use dire_agent.Prelude.Results.{ok}
use dire_agent.McpClient.Names.{model_name, separator}
use dire_agent.McpClient.Collisions.{model_name-injective, model_name-collides}

web-name : model_name (codes "web") (codes "b__c") ≡ ok (codes "mcp__web__b__c")
unfolding model_name
web-name = refl

web_b-name :
    model_name (codes "web" ++ separator ++ codes "b") (codes "c") ≡ ok (codes "mcp__web__b__c")
unfolding model_name
web_b-name = refl

model_name-injective_example : (codes "web" ≡ codes "web") × (codes "b__c" ≡ codes "b__c")
model_name-injective_example =
    model_name-injective (codes "web") (codes "web") (codes "b__c") (codes "b__c")
      (codes "mcp__web__b__c") (refl, (refl, (refl, tt))) (refl, (refl, (refl, tt))) web-name
      web-name

model_name-collides_example : codes "mcp__web__b__c" ≡ codes "mcp__web__b__c"
model_name-collides_example =
    model_name-collides (codes "web") (codes "b") (codes "c") (codes "mcp__web__b__c")
      (codes "mcp__web__b__c") web_b-name web-name
