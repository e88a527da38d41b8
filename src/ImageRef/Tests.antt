-- ===== src/ImageRef/Tests.antt =====
-- Tests and witnesses on image_ref.py.
use ha_docker_compose.Prelude.{
  before, codes, elem, nat_eq, pair_eq, partition, refl, rpartition, text_beq, text_eq, ◌≡◌,
}
use ha_docker_compose.ImageRef.{latest, docker_hub, parse_image_ref, ParsedImageRef}
use ha_docker_compose.ImageRef.Registry.{render, parse_image_ref_idem}

hub_test :
    parse_image_ref (codes "nginx")
    ≡ record { registry = docker_hub; repository = codes "library/nginx"; tag = latest }
unfolding parse_image_ref before elem rpartition partition text_beq
hub_test = refl

port_test :
    parse_image_ref (codes "host:5000/a/b:v1@sha256:00")
    ≡ record { registry = codes "host:5000"; repository = codes "a/b"; tag = codes "v1" }
unfolding parse_image_ref before elem rpartition partition text_beq
port_test = refl

abbrev parsed_app : ParsedImageRef
parsed_app = record {
  registry = codes "ghcr.io";
  repository = codes "home-assistant/core";
  tag = codes "2024.1";
}

parse_image_ref_idem_example :
    parse_image_ref (render (parse_image_ref (codes "nginx@sha256:00")))
    ≡ parse_image_ref (codes "nginx@sha256:00")
parse_image_ref_idem_example = parse_image_ref_idem (codes "nginx@sha256:00")
