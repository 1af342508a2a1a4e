-- ===== src/Examples/Document.antt =====
-- A blueprint and its document.
use pangolin_gateway.Prelude.{[], false, none, refl, some, true, ◌∷◌, ◌≡◌}
use pangolin_gateway.Blueprint.{Auth, Blueprint, PublicResource, Target}
use pangolin_gateway.Document.{target_json}
use pangolin_gateway.Json.{Fields, Json, opt}

abbrev target : Target
target = record {
  site = "home";
  method = "";
  hostname = "web.shop";
  port = 8080;
  healthcheck = none;
}

abbrev auth : Auth
auth = record {
  sso_enabled = true;
  basic_auth = none;
  pincode = some 123456;
  mtls = some (record { enabled = false; ca_certificates = [] });
  sso_roles = [];
  sso_users = "ada" ∷ [];
  whitelist_users = [];
}

abbrev web : PublicResource
web = record {
  name = "shop/web";
  mode = "http";
  full_domain = "shop.example.com";
  auth = some auth;
  policy = "";
  targets = target ∷ [];
  rules = [];
}

abbrev desired : Blueprint
desired = record {
  public_resources = ("gw-shop-web", web) ∷ ("gw-shop-api", record web { auth = none }) ∷ [];
  private_resources = [];
  public_policies = [];
}

-- An empty method and an absent check are left out.
target_test :
    target_json target
    ≡ Json.obj (
        Fields.field "site" (Json.str "home") (
          Fields.field "hostname"
            (Json.str "web.shop")
            (Fields.field "port" (Json.num 8080) Fields.end)))
unfolding target_json opt
target_test = refl
