-- ===== src/Tests/Commands.antt =====
-- The command line tool in the small system. The world of the HTTP server is the number of the
-- requests after which the job is done.
use mathlib.Core.List.{Memᴰ}
use fog.Prelude.{
  ℕ, zero, suc, ◌+◌, ◌≡◌, ◌⊎◌, refl, String, str_eq, none, [], ◌∷◌, if◌then◌else◌, true,
}
use fog.Sdk.Fresult.{FError, display}
use fog.Sdk.Outcome.{ok, err, Call, ret, fail, panic, hang}
use fog.Sdk.Types.{Uuid}
use fog.Sdk.Im.Fdu.{FduDescriptor, FduRecord, defined, running}
use fog.Sdk.Im.Entity.{EntityDescriptor, EntityRecord}
use fog.Connector.Query.{get_one, single, get_all, query, decode, decode_all}
use fog.Connector.Global.Fdus.{get_fdu, get_instance}
use fog.Connector.Global.Entities.{get_entity, get_entity_instance}
use fog.Connector.Global.Nodes.{get_all_nodes}
use fog.Connector.Keys.{
  nodes_selector, fdu_descriptor_path, fdu_instance_path, fdu_instance_selector, node_info_path,
  node_status_path,
}
use fog.Agent.Env.{World}
use fog.Rest.{instantiate_fdu, instantiate_on}
use fog.Ctl.Types.{Job, ReplyNewJobMessage, GetEntityResponse}
use fog.Ctl.Args.{FosCtl, FimCtl, AddKind, DeleteKind, GetFimKind}
use fog.Ctl.Terminal.{Machine, Http, HttpResponse, Json, Read, line}
use fog.Ctl.Quiet.{Silent, Once}
use fog.Ctl.Force.{force_cli}
use fog.Ctl.Force.Jobs.{add_instance, job_of, wait, post_action, delete_fim}
use fog.Ctl.Force.Laws.{Done, add_instance_sound}
use fog.Ctl.Force.Silent.{force_cli-Silent}
use fog.Ctl.Force.Waiting.{none_yet, one_more, succeeded, wait-Answered}
use fog.Ctl.Force.Pieces.{begun, get_entity_partly}
use fog.Ctl.Force.Tables as Tables
use fog.Ctl.Fim.{fim_cli}
use fog.Ctl.Fim.Nodes.{Session}
use fog.Ctl.Fim.Nodes as Nodes
use fog.Ctl.Fim.Laws.{Ran, TakenDown, fim_add_instance_sound, fim_delete_instance_sound}
use fog.Ctl.Fim.Served.{add_instance-instantiate_fdu}
use fog.Ctl.Fim.Silent.{fim_cli-Once}
use fog.Tests.Fixture.{env, global, store_in, fdu, entity, entity_record}

abbrev refused : {A : Type 0} → Read A
refused = record { from_str = λ text. err "unused" }

abbrev reads : {A : Type 0} → A → Read A
reads a = record { from_str = λ text. ok a }

-- The entity with an FDU that has no UUID.
abbrev nameless : EntityDescriptor
nameless = record entity { fdus = fdu ∷ record fdu { uuid = none } ∷ [] }

abbrev entity_response : GetEntityResponse
entity_response = record { system = 0; tenant = 0; entity = nameless }

abbrev json : Json
json = record {
  request = record { to_string = λ r. ok r.job_kind; debug = λ r. r.job_kind };
  action = record { to_string = λ a. ok "action"; debug = λ a. "action" };
  reply = reads (record { original_sender = "cli"; accepted = true; job_id = "job"; body = none });
  job = record {
    from_str = λ text. ok (record {
      job_id = "job";
      original_sender = "cli";
      kind = "instantiate";
      body = text;
      status = "open";
    });
  };
  descriptor = reads entity;
  entity_record = record {
    from_str = λ text. if str_eq text "done" then ok entity_record else err "descriptor";
  };
  get_entity = reads entity_response;
  get_entities = refused;
  get_fim = refused;
  get_fims = refused;
  get_cloud = refused;
  get_clouds = refused;
  get_instance = refused;
  get_instances = refused;
}

abbrev page : String → HttpResponse
page text = record { status = 200; text = ok text }

abbrev machine_with : {W : Type 0} → Http W → Machine W
machine_with http = record {
  read_to_string = λ path w. (ok "text", w);
  http = http;
  json = json;
  base64 = λ s. s;
  show_uuid = λ u. "uuid";
  show_number = λ n. "number";
  debug_text = λ s. s;
  debug_texts = λ ss. "texts";
}

abbrev polled : Call ℕ HttpResponse
polled zero = (ok (page "done"), zero)
polled (suc n) = (ok (page "not yet"), n)

abbrev server : Machine ℕ
server = machine_with (record {
  build = λ w. (ok tt, w);
  get = λ url. polled;
  post = λ url body w. (ok (page "reply"), w);
  post_form = λ url form w. (ok (page ""), w);
  delete = λ url w. (ok (record { status = 404; text = ok "" }), w);
})

-- A machine whose network is down.
abbrev alone : Machine (World env)
alone = machine_with (record {
  build = λ w. (ok tt, w);
  get = λ url w. (err "down", w);
  post = λ url body w. (err "down", w);
  post_form = λ url form w. (err "down", w);
  delete = λ url w. (err "down", w);
})

abbrev session : Session (World env)
session = record {
  connect = λ locator w. (ok tt, w);
  open_net = λ locator w. (ok tt, w);
  machine_uid = λ w. (ok "1", w);
  parse_uuid = λ text. ok 1;
  fdu_yaml = reads fdu;
  entity_yaml = reads entity;
}

-- A deletion is reported as done whatever the server answers: here, that it has found nothing.
delete_not_found :
    force_cli server 1 (FosCtl.delete (DeleteKind.fim 3)) "host" ([], 0)
    ≡ (ret tt, (line "uuid" ∷ [], 0))
unfolding force_cli delete_fim
delete_not_found = refl

-- Without enough fuel the loop is still waiting.
still_waiting : (wait server "host" 2 "job" 2).0 ≡ hang
unfolding wait
still_waiting = refl

add_instance_sound_example :
    (resp : ReplyNewJobMessage) × (w₁ : ℕ) × (post_action server "host" "instantiate"
        (record { uuid = 5; fim_id = none; cloud_id = none })
        2
      ≡ (ret resp, w₁))
    × (job : Job) × (r : EntityRecord) × (w₂ : ℕ) × (job_of server "host" resp.job_id w₂
        ≡ (ret job, 0))
    × Done server "host" job r
    × (line "uuid" ∷ [] ≡ line "uuid" ∷ [])
unfolding add_instance wait
add_instance_sound_example = add_instance_sound server "host" 3 5 none none [] 2 refl

wait-Answered_example : wait server "host" (2 + suc 4) "job" 2 ≡ (ret entity_record, 0)
wait-Answered_example =
    wait-Answered server "host" "job" 2 4 2 0 0
      (one_more refl (λ h. cc h) refl (one_more refl (λ h. cc h) refl none_yet))
      (succeeded refl (λ h. cc h) refl)

force_cli-Silent_example :
    Silent (force_cli server 1 (FosCtl.add (AddKind.entity_instance 5 none none)) "host")
force_cli-Silent_example =
    force_cli-Silent server 1 "host" (FosCtl.add (AddKind.entity_instance 5 none none)) refl

get_entity_partly_example :
    Tables.get_entity server "host" 5 ([], 2)
    ≡ (panic, (begun server "host" 5 entity_response [], 1))
get_entity_partly_example =
    get_entity_partly server "host" 5 5 [] 2 1 entity_response (record fdu { uuid = none }) refl
      refl (Memᴰ.tail (Memᴰ.head refl)) refl

fim_cli-Once_example :
    Once (fim_cli env alone session (FimCtl.get (GetFimKind.node none)) "tcp/127.0.0.1:61189")
fim_cli-Once_example =
    fim_cli-Once env alone session (FimCtl.get (GetFimKind.node none)) "tcp/127.0.0.1:61189"

fim_add_instance_sound_example :
    (u node : Uuid) × (w₁ w₂ : World env) × (line "uuid" ∷ [] ≡ line "uuid" ∷ [])
    × (((d : FduDescriptor) × (get_fdu env.zenoh env.codecs global 7 w₁ ≡ (ret d, w₂))
          × Ran env alone session global node 7 u w₂ (store_in defined))
        ⊎ ((get_fdu env.zenoh env.codecs global 7 w₁ ≡ (fail FError.not_found, w₂))
            × (e : EntityDescriptor) × (w₃ : World env) × (get_entity env.zenoh env.codecs global 7
                  w₂
                ≡ (ret e, w₃))
            × (env.orchestrator.schedule_entity node 7 w₃ ≡ (ok (ok u), store_in defined))))
unfolding get_one query single decode fdu_descriptor_path fdu_instance_path fdu_instance_selector
    node_info_path node_status_path get_fdu get_all_nodes nodes_selector get_all decode_all
    Nodes.add_instance
fim_add_instance_sound_example =
    fim_add_instance_sound env alone session global 7 [] (store_in defined) refl

fim_delete_instance_sound_example :
    (u node : Uuid) × (w₁ w₂ : World env) × (line "uuid" ∷ [] ≡ line "uuid" ∷ [])
    × (((found : FduRecord) × (get_instance env.zenoh env.codecs global 9 (store_in running)
            ≡ (ret found, w₁))
          × TakenDown env alone session global node 9 u w₂ (store_in running))
        ⊎ ((get_instance env.zenoh env.codecs global 9 (store_in running)
              ≡ (fail FError.not_found, w₁))
            × (e : EntityRecord) × (w₃ : World env) × (get_entity_instance env.zenoh env.codecs
                  global 9 w₁
                ≡ (ret e, w₃))
            × (env.orchestrator.deschedule_entity node 9 w₂ ≡ (ok (ok u), store_in running))))
unfolding get_one query single decode fdu_descriptor_path fdu_instance_path fdu_instance_selector
    node_info_path node_status_path get_instance get_all_nodes nodes_selector get_all decode_all
    Nodes.delete_instance
fim_delete_instance_sound_example =
    fim_delete_instance_sound env alone session global 9 [] (store_in running) refl

add_instance-instantiate_fdu_example :
    Nodes.add_instance env alone session global 7 ([], store_in defined)
    ≡ (ret tt, (line "uuid" ∷ [], store_in defined))
unfolding get_one query single decode fdu_descriptor_path fdu_instance_path fdu_instance_selector
    node_info_path node_status_path get_fdu get_all_nodes nodes_selector get_all decode_all
    instantiate_fdu instantiate_on
add_instance-instantiate_fdu_example =
    add_instance-instantiate_fdu env display alone session global 7 [] (store_in defined) refl
